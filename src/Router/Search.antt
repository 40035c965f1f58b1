-- ===== src/Router/Search.antt =====
-- The search of libsponge/router.cc (`route_one_datagram`) ends, and finds a route of the address.
use tcp_lab.Base.{
  ℕ, zero, suc, ◌+◌, ◌≤◌, ◌<◌, ◌≡◌, refl, sym, ◌∙◌, ap, subst, true, ◌&&◌, Option, none, some, List,
  [], ◌∷◌, arith, leb, Bool-cases, inl, inr, if_true, if_false, length, All, ok,
}
use tcp_lab.Router.{
  Route, RouteKey, key_less, lower_bound, rejoin, better, follow, fast_search, search, choose,
}

-- The n-th element, with those before it, nearest first.
unfoldable pub spot : ℕ → List Route → List Route → Option (Route × List Route)
spot n before [] = none
spot zero before (x ∷ xs) = some (x, before)
spot (suc n) before (x ∷ xs) = spot n (x ∷ before) xs

-- An element that is not the first has a stored iterator, to an element that stands before it and
-- starts no later.
abbrev pub Step : List Route → Route → List Route → Type 0
Step table x [] = Unit {0}
Step table x (y ∷ before) =
    (z : Route) × (earlier : List Route) × (after : List Route) × (follow table x ≡ ok (z, earlier))
    × (table ≡ rejoin earlier (z ∷ after))
    × (length earlier ≤ length before)
    × (z.key.start ≤ x.key.start)

abbrev pub StepAt : List Route → Option (Route × List Route) → Type 0
StepAt table none = Unit {0}
StepAt table (some (x, before)) = Step table x before

-- So it is of every element of the table.
abbrev pub Linked : List Route → Type 0
Linked table = (n : ℕ) → StepAt table (spot n [] table)

pub spot-rejoin :
    (before xs : List Route) (k : ℕ)
    → spot (length before + k) [] (rejoin before xs) ≡ spot k before xs
unfolding spot rejoin
spot-rejoin [] xs k = ap (λ n. spot n [] xs) (omega arith)
spot-rejoin (y ∷ before) xs k =
    ap (λ n. spot n [] (rejoin before (y ∷ xs))) (omega arith) ∙ spot-rejoin before (y ∷ xs) (suc k)

length-rejoin : (before xs : List Route) → length (rejoin before xs) ≡ length before + length xs
unfolding rejoin
length-rejoin [] xs = omega arith
length-rejoin (y ∷ before) xs = omega (arith, length-rejoin before (y ∷ xs))

less_start :
    (dst : ℕ) (k : RouteKey) → key_less k (record { start = dst; end = 0 }) ≡ true → k.start ≤ dst
unfolding key_less
less_start dst k e = ground arith

-- The elements before the lower bound of an address start at or before it.
pub lower_bound_lem :
    (dst : ℕ) (before xs : List Route)
    → All (λ r. r.key.start ≤ dst) before
    → let p = lower_bound (record { start = dst; end = 0 }) before xs in
      (rejoin p.0 p.1 ≡ rejoin before xs) × All (λ r. r.key.start ≤ dst) p.0
unfolding lower_bound rejoin
lower_bound_lem dst before [] a = (refl, a)
lower_bound_lem dst before (x ∷ xs) a =
    elim (Bool-cases (key_less x.key (record { start = dst; end = 0 }))) [
      | inl less ↦ rw less (lower_bound_lem dst (x ∷ before) xs (less_start dst x.key less, a))
      | inr not_less ↦ rw not_less (refl, a)
    ]

-- A route of the table whose range holds the address.
abbrev pub Holds : List Route → ℕ → Route → Type 0
Holds table dst x =
    ((before : List Route) × (after : List Route) × (table ≡ rejoin before (x ∷ after)))
    × (x.key.start ≤ dst)
    × (dst ≤ x.key.end)

abbrev Best : List Route → ℕ → Option Route → Type 0
Best table dst none = Unit {0}
Best table dst (some x) = Holds table dst x

module _ (table : List Route) (linked : Linked table) (dst : ℕ) where
  table-Step :
      (x : Route) (before after : List Route)
      → table ≡ rejoin before (x ∷ after)
      → Step table x before
  unfolding spot
  table-Step x before after e =
      subst (StepAt table)
        (ap (λ n. spot n [] table) (omega arith)
          ∙ ap (spot (length before + 0) []) e
          ∙ spot-rejoin before (x ∷ after) 0)
        (linked (length before))

  better_lem :
      (saved : Option Route) (x : Route) (before after : List Route)
      → Best table dst saved
      → table ≡ rejoin before (x ∷ after)
      → x.key.start ≤ dst
      → Best table dst (better dst saved x)
  unfolding better
  better_lem saved x before after b e le =
      let plen : ℕ = elim saved [ none ↦ 0 | some s ↦ s.prefix_length ] in
      elim (Bool-cases (leb dst x.key.end && leb plen x.prefix_length)) [
        | inl take_it ↦
            subst (Best table dst) (sym (if_true _ _ _ take_it))
              ((before, after, e), le, ground (arith, take_it))
        | inr leave ↦ subst (Best table dst) (sym (if_false _ _ _ leave)) b
      ]

  fast_search_lem :
      (fuel : ℕ) (saved : Option Route) (x : Route) (before after : List Route)
      → Best table dst saved
      → table ≡ rejoin before (x ∷ after)
      → x.key.start ≤ dst
      → length before < fuel
      → (found : Option Route) × (fast_search fuel table dst saved x before ≡ ok found)
        × Best table dst found
  unfolding fast_search
  fast_search_lem zero saved x before after b e le enough = absurd (omega arith)
  fast_search_lem (suc fuel) saved x [] after b e le enough = (saved, refl, b)
  fast_search_lem (suc fuel) saved x (y ∷ before) after b e le enough =
      let (z, earlier, after', f, e', shorter, starts) = table-Step x (y ∷ before) after e in
      let le' : z.key.start ≤ dst = omega (arith, starts, le) in
      let (found, r, b') =
        fast_search_lem fuel (better dst saved z) z earlier after'
          (better_lem saved z earlier after' b e' le') e' le' (omega (arith, shorter, enough)) in
      (found, rw f r, b')

  search_lem :
      (fuel : ℕ) (saved : Option Route) (before after : List Route)
      → Best table dst saved
      → table ≡ rejoin before after
      → All (λ r. r.key.start ≤ dst) before
      → length before ≤ fuel
      → (found : Option Route) × (search fuel table dst saved before ≡ ok found)
        × Best table dst found
  unfolding search rejoin
  search_lem fuel saved [] after b e a enough = (saved, refl, b)
  search_lem fuel saved (x ∷ before) after b e (le, a) enough =
      let b' = better_lem saved x before after b e le in
      elim (Bool-cases (leb x.key.end dst)) [
        | inl fast ↦
            let (found, r, k) =
              fast_search_lem fuel (better dst saved x) x before after b' e le (omega arith) in
            (found, if_true _ _ _ fast ∙ r, k)
        | inr back ↦
            let (found, r, k) =
              search_lem fuel (better dst saved x) before (x ∷ after) b' e a (omega arith) in
            (found, if_false _ _ _ back ∙ r, k)
      ]

-- On a table each of whose elements but the first has a stored iterator to an element before it
-- that starts no later, the search for an address ends without an exception; a route that it
-- chooses is one of the table, and its range, from its prefix to its last address, holds the
-- address.
pub choose_lem :
    (table : List Route) (dst : ℕ)
    → Linked table
    → (found : Option Route) × (choose table dst ≡ ok found)
      × ((x : Route) → found ≡ some x → Holds table dst x)
unfolding choose rejoin
choose_lem table dst linked =
    let (e, a) = lower_bound_lem dst [] table tt in
    let p = lower_bound (record { start = dst; end = 0 }) [] table in
    let (found, r, best) =
      search_lem table linked dst (length table + 1) none p.0 p.1 tt (sym e) a
        (omega (arith, ap length e, length-rejoin p.0 p.1)) in
    (found, r, λ x chosen. subst (Best table dst) chosen best)
