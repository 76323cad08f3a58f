-- ===== src/Builders/Names.antt =====
-- orm/internal/utils/nameutils.go: the names of columns. Package unicode is a parameter.
use fyer_webframe.Base.{
  ℕ, ◌≡◌, refl, ap, ◌∙◌, Bool, true, false, not, ◌&&◌, ◌||◌, [], ◌∷◌, ◌++◌, if◌then◌else◌,
}
use fyer_webframe.Base.Text.{Text, codes, has_suffix}

pub record Unicode : Type 0 where
  pub is_upper : ℕ → Bool
  pub is_lower : ℕ → Bool
  pub to_lower : ℕ → ℕ

-- What holds of the rune behind, where there is one.
abbrev pub next_is : (ℕ → Bool) → Text → Bool
next_is p [] = false
next_is p (c ∷ s) = p c

abbrev pub is_empty : Text → Bool
is_empty [] = true
is_empty (c ∷ s) = false

abbrev pub underscored : Bool → Text → Text
underscored wanted result =
    if wanted && not (is_empty result) && not (has_suffix result (codes "_"))
    then result ++ codes "_"
    else result

module _ (u : Unicode) where
  -- One rune; `first` is i == 0.
  unfoldable pub snake_step : Bool → Bool → ℕ → Text → Text → Text
  snake_step first prev_is_upper current rest result =
      let wanted =
        not first
        && (next_is u.is_lower rest
            || (not prev_is_upper)
            || (prev_is_upper && next_is u.is_lower rest)) in
      let broken = not first && prev_is_upper && next_is u.is_upper rest in
      if u.is_upper current
      then underscored wanted result ++ (u.to_lower current ∷ [])
      else if u.is_lower current
      then underscored broken result ++ (current ∷ [])
      else result

  -- The loop over the runes.
  unfoldable pub snake_from : Bool → Bool → Text → Text → Text
  snake_from first prev_is_upper result [] = result
  snake_from first prev_is_upper result (c ∷ s) =
      snake_from false (u.is_upper c) (snake_step first prev_is_upper c s result) s

  -- CamelToSnake
  unfoldable pub camel_to_snake : Text → Text
  camel_to_snake s = snake_from true false [] s

  next_is-append_other :
      (p : ℕ → Bool) (s : Text) (d : ℕ) → p d ≡ false → next_is p (s ++ (d ∷ [])) ≡ next_is p s
  next_is-append_other p [] d e = e
  next_is-append_other p (c ∷ s) d e = refl

  snake_step-append_other :
      (first prev : Bool) (c : ℕ) (s result : Text) (d : ℕ)
      → u.is_upper d ≡ false
      → u.is_lower d ≡ false
      → snake_step first prev c (s ++ (d ∷ [])) result ≡ snake_step first prev c s result
  unfolding snake_step
  snake_step-append_other first prev c s result d up low =
      rw (next_is-append_other u.is_upper s d up, next_is-append_other u.is_lower s d low) refl

  snake_from-append_other :
      (first prev : Bool) (result s : Text) (d : ℕ)
      → u.is_upper d ≡ false
      → u.is_lower d ≡ false
      → snake_from first prev result (s ++ (d ∷ [])) ≡ snake_from first prev result s
  unfolding snake_from snake_step
  snake_from-append_other first prev result [] d up low = rw (up, low) refl
  snake_from-append_other first prev result (c ∷ s) d up low =
      ap (λ r. snake_from false (u.is_upper c) r (s ++ (d ∷ [])))
        (snake_step-append_other first prev c s result d up low)
      ∙ snake_from-append_other false (u.is_upper c) (snake_step first prev c s result) s d up low

  -- CamelToSnake leaves out a rune at the end of a name that is neither an upper case nor a lower
  -- case letter, such as a digit: the name gives the same column with it and without it.
  pub camel_to_snake_last :
      (s : Text) (d : ℕ)
      → u.is_upper d ≡ false
      → u.is_lower d ≡ false
      → camel_to_snake (s ++ (d ∷ [])) ≡ camel_to_snake s
  unfolding camel_to_snake
  camel_to_snake_last s d up low = snake_from-append_other true false [] s d up low
