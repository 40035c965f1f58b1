-- ===== src/Router/Longest.antt =====
-- The search of libsponge/router.cc (`route_one_datagram`) finds the longest prefix.
use tcp_lab.Base.{
  ℕ, zero, suc, ◌+◌, ◌≤◌, ◌<◌, ◌≡◌, refl, sym, ◌∙◌, ap, subst, false, ◌⊎◌, Option, none, some, List,
  [], ◌∷◌, ◌++◌, arith, leb, Bool-cases, inl, inr, length, All, Ensures, Ensures-bind, Ensures-if,
  ok,
}
use tcp_lab.Router.{
  Route, key_less, lower_bound, rejoin, better, follow, fast_search, search, choose,
}
use tcp_lab.Router.Search.{spot, spot-rejoin, lower_bound_lem, Linked, Holds, choose_lem}

abbrev pub In : Route → List Route → Type 0
In w [] = ⊥
In w (x ∷ xs) = (w ≡ x) ⊎ In w xs

-- The routes are in the order of their first addresses, as in the map, and no range is empty.
abbrev pub Ordered : ℕ → List Route → Type 0
Ordered lo [] = Unit {0}
Ordered lo (x ∷ xs) = (lo ≤ x.key.start) × (x.key.start ≤ x.key.end) × Ordered x.key.start xs

-- What a stored iterator leaves out, from an element back to the one that it points to, ends
-- before the element begins; and that one begins no later.
abbrev pub Skip : List Route → Route → List Route → Type 0
Skip table x [] = Unit {0}
Skip table x (y ∷ before) =
    Ensures
      (λ q.
        (skipped : List Route) × (y ∷ before ≡ skipped ++ (q.0 ∷ q.1))
        × All (λ w. w.key.end < x.key.start) skipped
        × (q.0.key.start ≤ x.key.start))
      (follow table x)

abbrev pub SkipAt : List Route → Option (Route × List Route) → Type 0
SkipAt table none = Unit {0}
SkipAt table (some (x, before)) = Skip table x before

abbrev pub Skipping : List Route → Type 0
Skipping table = (n : ℕ) → SkipAt table (spot n [] table)

-- The range of the route, from its prefix to its last address, holds the address.
abbrev pub Within : ℕ → Route → Type 0
Within dst w = (w.key.start ≤ dst) × (dst ≤ w.key.end)

-- A route was found, and its prefix is at least as long.
abbrev pub AtLeast : Option Route → Route → Type 0
AtLeast none w = ⊥
AtLeast (some x) w = w.prefix_length ≤ x.prefix_length

In-All : (P : Route → Type 0) (w : Route) (xs : List Route) → All P xs → In w xs → P w
In-All P w [] a m = absurd m
In-All P w (x ∷ xs) (p, a) (inl e) = subst P (sym e) p
In-All P w (x ∷ xs) (p, a) (inr m) = In-All P w xs a m

In-append : (w : Route) (xs ys : List Route) → In w (xs ++ ys) → In w xs ⊎ In w ys
In-append w [] ys m = inr m
In-append w (x ∷ xs) ys (inl e) = inl (inl e)
In-append w (x ∷ xs) ys (inr m) = elim (In-append w xs ys m) [ inl a ↦ inl (inr a) | inr b ↦ inr b ]

In-rejoin :
    (w : Route) (before after : List Route) → In w (rejoin before after) → In w before ⊎ In w after
unfolding rejoin
In-rejoin w [] after m = inr m
In-rejoin w (x ∷ before) after m = elim (In-rejoin w before (x ∷ after) m) [
  | inl a ↦ inl (inr a)
  | inr (inl e) ↦ inl (inl e)
  | inr (inr b) ↦ inr b
]

rejoin-append : (a b after : List Route) → rejoin (a ++ b) after ≡ rejoin b (rejoin a after)
unfolding rejoin
rejoin-append [] b after = refl
rejoin-append (x ∷ a) b after = rejoin-append a b (x ∷ after)

-- `better` loses nothing, and counts the route in.
better_keeps :
    (dst : ℕ) (saved : Option Route) (x w : Route)
    → AtLeast saved w
    → AtLeast (better dst saved x) w
unfolding better
better_keeps dst none x w h = absurd h
better_keeps dst (some s) x w h = ground arith

better_counts :
    (dst : ℕ) (saved : Option Route) (x : Route) → Within dst x → AtLeast (better dst saved x) x
unfolding better
better_counts dst none x (le, le') = ground arith
better_counts dst (some s) x (le, le') = ground arith

-- From the lower bound of an address on, the routes begin behind it.
above_all :
    (dst lo : ℕ) (xs : List Route) → dst < lo → Ordered lo xs → All (λ w. dst < w.key.start) xs
above_all dst lo [] h o = tt
above_all dst lo (x ∷ xs) h (le, _, o) = (omega arith, above_all dst x.key.start xs (omega arith) o)

not_less :
    (dst : ℕ) (x : Route)
    → 0 < dst
    → x.key.start ≤ x.key.end
    → key_less x.key (record { start = dst; end = 0 }) ≡ false
    → dst < x.key.start
unfolding key_less
not_less dst x pos le e = ground arith

lower_bound_above :
    (dst lo : ℕ) (before xs : List Route)
    → 0 < dst
    → Ordered lo xs
    → All (λ w. dst < w.key.start) (lower_bound (record { start = dst; end = 0 }) before xs).1
unfolding lower_bound
lower_bound_above dst lo before [] pos o = tt
lower_bound_above dst lo before (x ∷ xs) pos (le, range, o) =
    elim (Bool-cases (key_less x.key (record { start = dst; end = 0 }))) [
      | inl less ↦ rw less (lower_bound_above dst x.key.start (x ∷ before) xs pos o)
      | inr more ↦ rw more (
        not_less dst x pos range more,
        above_all dst x.key.start xs (not_less dst x pos range more) o,
      )
    ]

module _ (table : List Route) (skipping : Skipping table) (dst : ℕ) where
  -- Each route of the table is still to come, or is not better than the one saved.
  abbrev Rest : Option Route → List Route → Type 0
  Rest saved before = (w : Route) → In w table → In w before ⊎ (Within dst w → AtLeast saved w)

  table-Skip :
      (x : Route) (before after : List Route)
      → table ≡ rejoin before (x ∷ after)
      → Skip table x before
  unfolding spot
  table-Skip x before after e =
      subst (SkipAt table)
        (ap (λ n. spot n [] table) (omega arith)
          ∙ ap (spot (length before + 0) []) e
          ∙ spot-rejoin before (x ∷ after) 0)
        (skipping (length before))

  count_in :
      (saved : Option Route) (x : Route) (before : List Route)
      → Rest saved (x ∷ before)
      → Rest (better dst saved x) before
  count_in saved x before k w m = elim (k w m) [
    | inl (inl e) ↦ inr (λ h.
        subst (AtLeast (better dst saved x)) (sym e)
          (better_counts dst saved x (subst (Within dst) e h)))
    | inl (inr b) ↦ inl b
    | inr f ↦ inr (λ h. better_keeps dst saved x w (f h))
  ]

  -- What is left out does not hold the address.
  leave_out :
      (saved : Option Route) (skipped before : List Route)
      → All (λ w. w.key.end < dst) skipped
      → Rest saved (skipped ++ before)
      → Rest saved before
  leave_out saved skipped before a k w m = elim (k w m) [
    | inl b ↦ elim (In-append w skipped before b) [
      | inl s ↦
          inr
            (λ (le, le'). absurd (omega (arith, In-All (λ w. w.key.end < dst) w skipped a s, le')))
      | inr c ↦ inl c
    ]
    | inr f ↦ inr f
  ]

  ends_before :
      (n : ℕ) (xs : List Route)
      → n ≤ dst
      → All (λ w. w.key.end < n) xs
      → All (λ w. w.key.end < dst) xs
  ends_before n [] le a = tt
  ends_before n (x ∷ xs) le (h, a) = (omega arith, ends_before n xs le a)

  fast_search_lem :
      (fuel : ℕ) (saved : Option Route) (x : Route) (before after : List Route)
      → table ≡ rejoin before (x ∷ after)
      → x.key.start ≤ dst
      → Rest saved before
      → Ensures (λ found. Rest found []) (fast_search fuel table dst saved x before)
  unfolding fast_search rejoin
  fast_search_lem zero saved x before after e le k = tt
  fast_search_lem (suc fuel) saved x [] after e le k = k
  fast_search_lem (suc fuel) saved x (y ∷ before) after e le k =
      Ensures-bind _ (λ found. Rest found []) (follow table x) _ (table-Skip x (y ∷ before) after e)
        (λ (z, earlier) (skipped, split, ends, starts).
          fast_search_lem fuel (better dst saved z) z earlier (rejoin skipped (x ∷ after))
            (e
              ∙ ap (λ b. rejoin b (x ∷ after)) split
              ∙ rejoin-append skipped (z ∷ earlier) (x ∷ after))
            (omega (arith, starts, le))
            (count_in saved z earlier (
              leave_out saved skipped (z ∷ earlier) (ends_before x.key.start skipped le ends)
                (subst (Rest saved) split k))))

  search_lem :
      (fuel : ℕ) (saved : Option Route) (before after : List Route)
      → table ≡ rejoin before after
      → All (λ r. r.key.start ≤ dst) before
      → Rest saved before
      → Ensures (λ found. Rest found []) (search fuel table dst saved before)
  unfolding search rejoin
  search_lem fuel saved [] after e a k = k
  search_lem fuel saved (x ∷ before) after e (le, a) k =
      let k' = count_in saved x before k in
      Ensures-if (λ found. Rest found []) (leb x.key.end dst) _ _
        (fast_search_lem fuel (better dst saved x) x before after e le k')
        (search_lem fuel (better dst saved x) before (x ∷ after) e a k')

abbrev pub IsLongest : List Route → ℕ → Option Route → Type 0
IsLongest table dst found = (w : Route) → In w table → Within dst w → AtLeast found w

-- Let the table be in the order of the routes' first addresses, with ranges that are not empty.
-- Let each element but the first have a stored iterator to an element before it that starts no
-- later, where what lies between the two ends before the element begins. Then the search for an
-- address other than 0.0.0.0 ends without an exception. A route that it chooses is one of the
-- table, and its range, from its prefix to its last address, holds the address. Whenever the range
-- of a route of the table holds the address, a route is chosen, and its prefix is at least as long.
pub choose-IsLongest :
    (table : List Route) (dst : ℕ)
    → Linked table
    → Skipping table
    → Ordered 0 table
    → 0 < dst
    → (found : Option Route) × (choose table dst ≡ ok found)
      × ((x : Route) → found ≡ some x → Holds table dst x)
      × IsLongest table dst found
unfolding choose rejoin
choose-IsLongest table dst linked skipping ordered pos =
    let (found, r, holds) = choose_lem table dst linked in
    let (e, a) = lower_bound_lem dst [] table tt in
    let p = lower_bound (record { start = dst; end = 0 }) [] table in
    let behind = lower_bound_above dst 0 [] table pos ordered in
    let start : Rest table skipping dst none p.0 = λ w m.
      elim (In-rejoin w p.0 p.1 (subst (In w) (sym e) m)) [
        | inl b ↦ inl b
        | inr f ↦
            inr (λ (le, _).
              absurd (omega (arith, le, In-All (λ v. dst < v.key.start) w p.1 behind f)))
      ] in
    let rest =
      subst (Ensures (λ k. Rest table skipping dst k [])) r
        (search_lem table skipping dst (length table + 1) none p.0 p.1 (sym e) a start) in
    (found, r, holds, λ w m. elim (rest w m) [ inl b ↦ absurd b | inr f ↦ f ])
