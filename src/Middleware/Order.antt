-- ===== src/Middleware/Order.antt =====
-- web/middleware.go, sortMiddlewares: the order in which middlewares run.
use mathlib.Core.List.{Perm}
use mathlib.Core.List.Perm
use fyer_webframe.Base.{
  ◌≤◌, ◌<◌, ◌≡◌, ◌⊎◌, inl, inr, true, false, List, [], ◌∷◌, arith, All, Bool-cases,
}
use fyer_webframe.Middleware.{
  MiddlewareSource, global_source, path_source, MiddlewareWithPath, source_rank, type_rank,
  calculate_path_specificity, less, less_path, insert_sorted, sort_middlewares,
}

source_rank-le : (s : MiddlewareSource) → source_rank s ≤ 1
source_rank-le global_source = omega arith
source_rank-le path_source = omega arith

module _ {M : Type 0} where
  -- For two path middlewares: by the kind of path, then the more specific one, then by
  -- registration.
  abbrev pub BeforePath : MiddlewareWithPath M → MiddlewareWithPath M → Type 0
  BeforePath a b =
      (type_rank a.type < type_rank b.type)
      ⊎ ((type_rank a.type ≡ type_rank b.type)
          × ((calculate_path_specificity b.path < calculate_path_specificity a.path)
              ⊎ ((calculate_path_specificity a.path ≡ calculate_path_specificity b.path)
                  × (a.order ≤ b.order))))

  -- Global middlewares first and among themselves by registration.
  abbrev pub Before : MiddlewareWithPath M → MiddlewareWithPath M → Type 0
  Before a b =
      (source_rank a.source < source_rank b.source)
      ⊎ ((source_rank a.source ≡ 0) × (source_rank b.source ≡ 0) × (a.order ≤ b.order))
      ⊎ ((source_rank a.source ≡ 1) × (source_rank b.source ≡ 1) × BeforePath a b)

  BeforePath-less_path : (a b : MiddlewareWithPath M) → less_path a b ≡ true → BeforePath a b
  unfolding less_path
  BeforePath-less_path a b e = ground arith

  BeforePath-not : (a b : MiddlewareWithPath M) → less_path b a ≡ false → BeforePath a b
  unfolding less_path
  BeforePath-not a b e = ground arith

  Before-less : (a b : MiddlewareWithPath M) → less a b ≡ true → Before a b
  unfolding less
  Before-less a b e =
      ground (arith, BeforePath-less_path a b, source_rank-le a.source, source_rank-le b.source)

  Before-not : (a b : MiddlewareWithPath M) → less b a ≡ false → Before a b
  unfolding less
  Before-not a b e =
      ground (arith, BeforePath-not a b, source_rank-le a.source, source_rank-le b.source)

  BeforePath-trans :
      (a b c : MiddlewareWithPath M) → BeforePath a b → BeforePath b c → BeforePath a c
  BeforePath-trans a b c p q = ground arith

  Before-trans : (a b c : MiddlewareWithPath M) → Before a b → Before b c → Before a c
  Before-trans a b c p q = ground (arith, BeforePath-trans a b c)

  All-Before_trans :
      (a b : MiddlewareWithPath M) (l : List (MiddlewareWithPath M))
      → Before a b
      → All (Before b) l
      → All (Before a) l
  All-Before_trans a b [] p q = tt
  All-Before_trans a b (c ∷ l) p (q, qs) = (Before-trans a b c p q, All-Before_trans a b l p qs)

  -- Each middleware runs before all that stand behind it.
  abbrev pub Sorted : List (MiddlewareWithPath M) → Type 0
  Sorted [] = Unit {0}
  Sorted (a ∷ l) = All (Before a) l × Sorted l

  insert_sorted-All :
      (P : MiddlewareWithPath M → Type 0) (a : MiddlewareWithPath M)
      (l : List (MiddlewareWithPath M))
      → P a
      → All P l
      → All P (insert_sorted a l)
  unfolding insert_sorted
  insert_sorted-All P a [] p q = (p, tt)
  insert_sorted-All P a (b ∷ l) p (q, qs) = elim (Bool-cases (less b a)) [
    | inl e ↦ rw e (q, insert_sorted-All P a l p qs)
    | inr e ↦ rw e (p, (q, qs))
  ]

  insert_sorted-Sorted :
      (a : MiddlewareWithPath M) (l : List (MiddlewareWithPath M))
      → Sorted l
      → Sorted (insert_sorted a l)
  unfolding insert_sorted
  insert_sorted-Sorted a [] s = (tt, tt)
  insert_sorted-Sorted a (b ∷ l) (s, ss) = elim (Bool-cases (less b a)) [
    | inl e ↦
        rw e (insert_sorted-All (Before b) a l (Before-less b a e) s, insert_sorted-Sorted a l ss)
    | inr e ↦ rw e ((Before-not a b e, All-Before_trans a b l (Before-not a b e) s), (s, ss))
  ]

  pub sort_middlewares-Sorted : (l : List (MiddlewareWithPath M)) → Sorted (sort_middlewares l)
  unfolding sort_middlewares
  sort_middlewares-Sorted [] = tt
  sort_middlewares-Sorted (a ∷ l) =
      insert_sorted-Sorted a (sort_middlewares l) (sort_middlewares-Sorted l)

  insert_sorted-perm :
      (a : MiddlewareWithPath M) (l : List (MiddlewareWithPath M))
      → Perm (insert_sorted a l) (a ∷ l)
  unfolding insert_sorted
  insert_sorted-perm a [] = Perm.refl _
  insert_sorted-perm a (b ∷ l) = elim (Bool-cases (less b a)) [
    | inl e ↦ rw e (Perm.trans (Perm.cons b (insert_sorted-perm a l)) (Perm.swap _ _ _))
    | inr e ↦ rw e (Perm.refl _)
  ]

  pub sort_middlewares-perm : (l : List (MiddlewareWithPath M)) → Perm (sort_middlewares l) l
  unfolding sort_middlewares
  sort_middlewares-perm [] = Perm.refl _
  sort_middlewares-perm (a ∷ l) =
      Perm.trans (insert_sorted-perm a (sort_middlewares l)) (Perm.cons a (sort_middlewares-perm l))
