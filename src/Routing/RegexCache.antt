-- ===== src/Routing/RegexCache.antt =====
-- web/router/regex_cache.go: compiled expressions by their pattern. `compile` is regexp.Compile.
use fyer_webframe.Base.{◌≡◌, refl, sym, ◌∙◌, List, [], ◌∷◌, Option, none, some, arith}
use fyer_webframe.Base.Text.{Text, text_dec}
use fyer_webframe.Base.Map.{Map, lookup, insert, lookup-insert}

module _ {R : Type 0} (compile : Text → Option R) where
  abbrev pub compiled : Text → Option R → Map R → Map R × Option R
  compiled pattern none c = (c, none)
  compiled pattern (some r) c = (insert pattern r c, some r)

  abbrev pub cached_or : Text → Option R → Map R → Map R × Option R
  cached_or pattern none c = compiled pattern (compile pattern) c
  cached_or pattern (some r) c = (c, some r)

  -- RegexCache.Get, with none for the error of Compile.
  unfoldable pub get_regex : Text → Map R → Map R × Option R
  get_regex pattern c = cached_or pattern (lookup pattern c) c

  -- Get and Clear, as calls.
  pub data Call : Type 0 where
    gets : Text → Call
    clears : Call

  unfoldable pub after_calls : List Call → Map R → Map R
  after_calls [] c = c
  after_calls (gets pattern ∷ calls) c = after_calls calls (get_regex pattern c).0
  after_calls (clears ∷ calls) c = after_calls calls []

  IsCompiled : Map R → Type 0
  IsCompiled c = (pattern : Text) (r : R) → lookup pattern c ≡ some r → compile pattern ≡ some r

  compiled-IsCompiled :
      (pattern : Text) (o : Option R) (c : Map R)
      → compile pattern ≡ o
      → IsCompiled c
      → IsCompiled (compiled pattern o c).0 × ((compiled pattern o c).1 ≡ o)
  unfolding IsCompiled
  compiled-IsCompiled pattern none c e sound = (sound, refl)
  compiled-IsCompiled pattern (some r) c e sound = (
    λ p s found. elim (text_dec pattern p) [
      | yes q ↦ rw (← q) (e ∙ ground (arith, lookup-insert pattern p r c))
      | no q ↦ sound p s (ground (arith, lookup-insert pattern p r c))
    ],
    refl,
  )

  cached_or-IsCompiled :
      (pattern : Text) (o : Option R) (c : Map R)
      → lookup pattern c ≡ o
      → IsCompiled c
      → IsCompiled (cached_or pattern o c).0 × ((cached_or pattern o c).1 ≡ compile pattern)
  unfolding IsCompiled
  cached_or-IsCompiled pattern none c e sound = compiled-IsCompiled pattern _ c refl sound
  cached_or-IsCompiled pattern (some r) c e sound = (sound, sym (sound pattern r e))

  after_calls-IsCompiled :
      (calls : List Call) (c : Map R) → IsCompiled c → IsCompiled (after_calls calls c)
  unfolding IsCompiled after_calls get_regex lookup
  after_calls-IsCompiled [] c sound = sound
  after_calls-IsCompiled (gets pattern ∷ calls) c sound =
      after_calls-IsCompiled calls _ (cached_or-IsCompiled pattern _ c refl sound).0
  after_calls-IsCompiled (Call.clears ∷ calls) c sound =
      after_calls-IsCompiled calls [] (λ p r e. cc)

  -- After any calls of Get and Clear on a new cache, Get answers as Compile does.
  pub get_regex-compile :
      (calls : List Call) (pattern : Text)
      → (get_regex pattern (after_calls calls [])).1 ≡ compile pattern
  unfolding get_regex IsCompiled lookup
  get_regex-compile calls pattern =
      (cached_or-IsCompiled pattern _ (after_calls calls []) refl
        (after_calls-IsCompiled calls [] (λ p r e. cc))).1
