-- ===== src/Routing/RadixTests.antt =====
-- Runs of the trees per method and of the cache of regular expressions, and their theorems there.
use fyer_webframe.Base.{ℕ, ◌≡◌, refl, [], ◌∷◌, Option, none, some, ite}
use fyer_webframe.Base.Text.{Text, codes, text_dec}
use fyer_webframe.Base.Map.{lookup}
use fyer_webframe.Routing.Insert.{insert}
use fyer_webframe.Routing.Find.{find}
use fyer_webframe.Routing.Radix.{
  RadixTree, add, find_method, routes, count_handlers, root_of, find_method-add,
}
use fyer_webframe.Routing.RegexCache.{get_regex, gets, clears, after_calls, get_regex-compile}
use fyer_webframe.Routing.Tests.{lax, as_listed, routing}

abbrev two_methods : RadixTree ℕ
two_methods =
    (add lax (codes "POST") (codes "/users") (some 2)
      (add lax (codes "GET") (codes "/users") (some 1) []).0).0

per_method :
    ((find_method lax as_listed (codes "GET") (codes "/users") two_methods []).0 ≡ some 1)
    × ((find_method lax as_listed (codes "POST") (codes "/users") two_methods []).0 ≡ some 2)
    × ((find_method lax as_listed (codes "PUT") (codes "/users") two_methods []).0 ≡ none)
    × (routes two_methods ≡ 2)
unfolding routing lookup add find_method routes count_handlers
per_method = (refl, refl, refl, refl)

find_method-add_example :
    find_method lax as_listed
      (codes "GET")
      (codes "/users")
      (add lax (codes "POST") (codes "/:x") (some 3) two_methods).0
      []
    ≡ ite
        (text_dec (codes "POST") (codes "GET"))
        (find lax as_listed
          (codes "/users")
          (insert lax (codes "/:x") (some 3) (root_of (lookup (codes "POST") two_methods))).0
          [])
        (find_method lax as_listed (codes "GET") (codes "/users") two_methods [])
find_method-add_example =
    find_method-add lax as_listed (codes "POST") (codes "/:x") (some 3) two_methods (codes "GET")
      (codes "/users") []

-- Only the digits compile, to 1.
abbrev digits_only : Text → Option ℕ
digits_only pattern = ite (text_dec pattern (codes "^[0-9]+$")) (some 1) none

get_regex-compile_example :
    (get_regex digits_only
      (codes "^[0-9]+$")
      (after_calls digits_only (gets (codes "(") ∷ clears ∷ gets (codes "^[0-9]+$") ∷ []) [])).1
    ≡ digits_only (codes "^[0-9]+$")
get_regex-compile_example =
    get_regex-compile digits_only (gets (codes "(") ∷ clears ∷ gets (codes "^[0-9]+$") ∷ [])
      (codes "^[0-9]+$")
