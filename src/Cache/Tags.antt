-- ===== src/Cache/Tags.antt =====
-- orm/memory.go: what each operation does to the tags of a key.
use mathlib.Core.List.{Memᴰ}
use fyer_webframe.Base.{
  ◌≡◌, ◌≢◌, ◌⊎◌, inl, inr, refl, sym, ◌∙◌, List, [], ◌∷◌, ◌++◌, Option, some, ite, arith,
  Option-cases,
}
use fyer_webframe.Base.Text.{Text, text_dec}
use fyer_webframe.Base.Map.{Map, lookup, insert, delete, keys, lookup-insert, lookup-delete}
use fyer_webframe.Cache.{
  KeySet, keys_of, put_keys, unlink, unlink_all, link, link_all, collect_keys, drop_link,
  drop_links,
}

-- The entry of a key in a tag's set.
abbrev pub tagged : Map KeySet → Text → Text → Option (Unit {0})
tagged m tag key = lookup key (keys_of (lookup tag m))

tagged-put_keys :
    (m : Map KeySet) (tag : Text) (ks : KeySet) (t j : Text)
    → tagged (put_keys tag ks m) t j ≡ ite (text_dec tag t) (lookup j ks) (tagged m t j)
unfolding lookup
tagged-put_keys m tag [] t j = ground (arith, lookup-delete tag t m)
tagged-put_keys m tag (k ∷ ks) t j = ground (arith, lookup-insert tag t (k ∷ ks) m)

tagged-unlink :
    (key tag : Text) (m : Map KeySet) (t j : Text)
    → key ≢ j
    → tagged (unlink key tag m) t j ≡ tagged m t j
unfolding unlink
tagged-unlink key tag m t j ne = ground (
  arith,
  tagged-put_keys m tag (delete key (keys_of (lookup tag m))) t j,
  lookup-delete key j (keys_of (lookup tag m)),
)

pub tagged-unlink_all :
    (key : Text) (tags : List Text) (m : Map KeySet) (t j : Text)
    → key ≢ j
    → tagged (unlink_all key tags m) t j ≡ tagged m t j
unfolding unlink_all
tagged-unlink_all key [] m t j ne = refl
tagged-unlink_all key (tag ∷ tags) m t j ne =
    tagged-unlink_all key tags (unlink key tag m) t j ne ∙ tagged-unlink key tag m t j ne

tagged-link :
    (key tag : Text) (m : Map KeySet) (t j : Text)
    → tagged (link key tag m) t j
      ≡ ite (text_dec tag t) (ite (text_dec key j) (some tt) (tagged m t j)) (tagged m t j)
unfolding link
tagged-link key tag m t j = ground (
  arith,
  lookup-insert tag t (insert key tt (keys_of (lookup tag m))) m,
  lookup-insert key j tt (keys_of (lookup tag m)),
)

pub tagged-link_all_ne :
    (key : Text) (tags : List Text) (m : Map KeySet) (t j : Text)
    → key ≢ j
    → tagged (link_all key tags m) t j ≡ tagged m t j
unfolding link_all
tagged-link_all_ne key [] m t j ne = refl
tagged-link_all_ne key (tag ∷ tags) m t j ne =
    tagged-link_all_ne key tags (link key tag m) t j ne ∙ ground (arith, tagged-link key tag m t j)

pub tagged-link_all_keeps :
    (key : Text) (tags : List Text) (m : Map KeySet) (t : Text)
    → tagged m t key ≡ some tt
    → tagged (link_all key tags m) t key ≡ some tt
unfolding link_all
tagged-link_all_keeps key [] m t e = e
tagged-link_all_keeps key (tag ∷ tags) m t e =
    tagged-link_all_keeps key tags (link key tag m) t (ground (arith, tagged-link key tag m t key))

pub tagged-link_all_self :
    (key : Text) (tags : List Text) (m : Map KeySet) (t : Text)
    → Memᴰ t tags
    → tagged (link_all key tags m) t key ≡ some tt
unfolding link_all
tagged-link_all_self key [] m t h = elim h [ ]
tagged-link_all_self key (tag ∷ tags) m t (Memᴰ.head e) =
    tagged-link_all_keeps key tags (link key tag m) t (ground (arith, tagged-link key tag m t key))
tagged-link_all_self key (tag ∷ tags) m t (Memᴰ.tail h) =
    tagged-link_all_self key tags (link key tag m) t h

tagged-drop_link :
    (key tag : Text) (m : Map KeySet) (t j : Text)
    → key ≢ j
    → tagged (drop_link key tag (lookup tag m) m) t j ≡ tagged m t j
tagged-drop_link key tag m t j ne = elim (Option-cases (lookup tag m)) [
  | inl e ↦ rw e
  | inr (ks, e) ↦
      rw e (ground (arith, e, lookup-insert tag t (delete key ks) m, lookup-delete key j ks))
]

pub tagged-drop_links :
    (key : Text) (tags : List Text) (m : Map KeySet) (t j : Text)
    → key ≢ j
    → tagged (drop_links key tags m) t j ≡ tagged m t j
unfolding drop_links
tagged-drop_links key [] m t j ne = refl
tagged-drop_links key (tag ∷ tags) m t j ne =
    tagged-drop_links key tags (drop_link key tag (lookup tag m) m) t j ne
    ∙ tagged-drop_link key tag m t j ne

lookup-Memᴰ : (j : Text) (ks : KeySet) → lookup j ks ≡ some tt → Memᴰ j (keys ks)
unfolding lookup
lookup-Memᴰ j [] e = cc
lookup-Memᴰ j ((k, u) ∷ ks) e = elim (text_dec k j) [
  | yes q ↦ Memᴰ.head (sym q)
  | no q ↦ Memᴰ.tail (lookup-Memᴰ j ks (ground arith))
]

Memᴰ-append_left : (a : Text) (s t : List Text) → Memᴰ a s → Memᴰ a (s ++ t)
Memᴰ-append_left a [] t m = elim m [ ]
Memᴰ-append_left a (x ∷ s) t (Memᴰ.head e) = Memᴰ.head e
Memᴰ-append_left a (x ∷ s) t (Memᴰ.tail m) = Memᴰ.tail (Memᴰ-append_left a s t m)

Memᴰ-append_right : (a : Text) (s t : List Text) → Memᴰ a t → Memᴰ a (s ++ t)
Memᴰ-append_right a [] t m = m
Memᴰ-append_right a (x ∷ s) t m = Memᴰ.tail (Memᴰ-append_right a s t m)

-- A key of a tag is collected, or keeps that tag.
pub collect_keys-cases :
    (tags : List Text) (m : Map KeySet) (t j : Text)
    → tagged m t j ≡ some tt
    → Memᴰ j (collect_keys tags m).0 ⊎ (tagged (collect_keys tags m).1 t j ≡ some tt)
unfolding collect_keys
collect_keys-cases [] m t j e = inr e
collect_keys-cases (tag ∷ tags) m t j e = elim (text_dec tag t) [
  | yes q ↦ inl (Memᴰ-append_left j _ _ (lookup-Memᴰ j (keys_of (lookup tag m)) (rw q e)))
  | no q ↦
      elim (collect_keys-cases tags (delete tag m) t j (ground (arith, lookup-delete tag t m))) [
        | inl h ↦ inl (Memᴰ-append_right j (keys (keys_of (lookup tag m))) _ h)
        | inr h ↦ inr h
      ]
]

-- Every key of a listed tag is collected.
pub collect_keys-Memᴰ :
    (tags : List Text) (m : Map KeySet) (t j : Text)
    → Memᴰ t tags
    → tagged m t j ≡ some tt
    → Memᴰ j (collect_keys tags m).0
unfolding collect_keys
collect_keys-Memᴰ [] m t j h e = elim h [ ]
collect_keys-Memᴰ (tag ∷ tags) m t j (Memᴰ.head q) e =
    Memᴰ-append_left j _ _ (lookup-Memᴰ j (keys_of (lookup tag m)) (rw (← q) e))
collect_keys-Memᴰ (tag ∷ tags) m t j (Memᴰ.tail h) e = elim (text_dec tag t) [
  | yes q ↦ Memᴰ-append_left j _ _ (lookup-Memᴰ j (keys_of (lookup tag m)) (rw q e))
  | no q ↦
      Memᴰ-append_right j (keys (keys_of (lookup tag m))) _
        (collect_keys-Memᴰ tags (delete tag m) t j h (ground (arith, lookup-delete tag t m)))
]
