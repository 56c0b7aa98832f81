-- ===== src/Search/Page.antt =====
-- The order and the cut of a page of `Search` (server/internal/search/search.go).
use file_tag_system.Prelude.{
  ℕ, zero, suc, ◌-◌, ◌<◌, ◌≤◌, List, [], ◌∷◌, Bool, ltb, ◌≡◌, ◌⊎◌, inl, inr, refl, ap, sym, subst,
  arith, In, In-of_select, In-of_map, select, map, take, length, Bool-cases,
}
use file_tag_system.Db.{File}
use file_tag_system.Search.{ResultFile, result_of, by_id, order_in, id_at, cut}

-- Rows in the order of their ids, which differ.
module _ {ℓ} {A : Type ℓ} (key : A → ℕ) where
  abbrev pub Ascending : List A → Type ℓ
  Ascending [] = Unit
  Ascending (x ∷ xs) = ((y : A) → In y xs → key x < key y) × Ascending xs

abbrev pub file_id : File → ℕ
file_id f = f.id

abbrev pub result_id : ResultFile → ℕ
result_id r = r.id

select-Ascending :
    (p : File → Bool) (fs : List File) → Ascending file_id fs → Ascending file_id (select p fs)
select-Ascending p [] h = tt
select-Ascending p (f ∷ fs) h = elim (Bool-cases (p f)) [
  | inl y ↦ rw y ((λ g m. h.0 g (In-of_select p g fs m).0), select-Ascending p fs h.1)
  | inr n ↦ rw n (select-Ascending p fs h.1)
]

by_id-Ascending : (fs : List File) → Ascending file_id fs → by_id fs ≡ fs
unfolding by_id order_in
by_id-Ascending [] h = refl
by_id-Ascending (f ∷ []) h = refl
by_id-Ascending (f ∷ g ∷ fs) h =
    let first : f.id < g.id = h.0 g (inl refl) in rw (by_id-Ascending (g ∷ fs) h.1) (ground arith)

map-Ascending : (fs : List File) → Ascending file_id fs → Ascending result_id (map result_of fs)
map-Ascending [] h = tt
map-Ascending (f ∷ fs) h =
    ((λ r m. let (g, k, e) = In-of_map result_of r fs m in rw e (h.0 g k)), map-Ascending fs h.1)

-- The rows of the query are in the order of their ids.
pub ordered-Ascending :
    (p : File → Bool) (fs : List File)
    → Ascending file_id fs
    → (by_id (select p fs) ≡ select p fs)
      × Ascending result_id (map result_of (by_id (select p fs)))
ordered-Ascending p fs h =
    let same = by_id-Ascending (select p fs) (select-Ascending p fs h) in
    (same, rw same (map-Ascending (select p fs) (select-Ascending p fs h)))

-- Every row is on the page or behind its last row.
behind :
    (n : ℕ) (rs : List ResultFile) (r : ResultFile)
    → Ascending result_id rs
    → In r rs
    → In r (take (suc n) (take (suc (suc n)) rs)) ⊎ (id_at n (take (suc (suc n)) rs) < r.id)
unfolding id_at
behind n [] r h m = elim m [ ]
behind zero (x ∷ []) r h (inl e) = inl (inl e)
behind zero (x ∷ []) r h (inr m) = elim m [ ]
behind zero (x ∷ y ∷ rs) r h (inl e) = inl (inl e)
behind zero (x ∷ y ∷ rs) r h (inr m) = inr (h.0 r m)
behind (suc n) (x ∷ rs) r h (inl e) = inl (inl e)
behind (suc n) (x ∷ rs) r h (inr m) = elim (behind n rs r h.1 m) [
  | inl k ↦ inl (inr k)
  | inr k ↦ inr k
]

take-short : (n : ℕ) (rs : List ResultFile) → length (take (suc n) rs) ≤ n → take (suc n) rs ≡ rs
take-short zero [] h = refl
take-short zero (r ∷ rs) h = absurd (ground arith)
take-short (suc n) [] h = refl
take-short (suc n) (r ∷ rs) h = ap (◌∷◌ r) (take-short n rs (omega (arith, h)))

In-take : (n : ℕ) (rs : List ResultFile) (r : ResultFile) → In r (take n rs) → In r rs
In-take zero rs r m = elim m [ ]
In-take (suc n) [] r m = elim m [ ]
In-take (suc n) (x ∷ rs) r (inl e) = inl e
In-take (suc n) (x ∷ rs) r (inr m) = inr (In-take n rs r m)

length-take_le : (n : ℕ) (rs : List ResultFile) → length (take n rs) ≤ n
length-take_le zero rs = omega arith
length-take_le (suc n) [] = omega arith
length-take_le (suc n) (r ∷ rs) = omega (arith, length-take_le n rs)

-- A page has rows of the query only, and no more than the limit.
pub cut_sound :
    (n : ℕ) (rs : List ResultFile)
    → (length (cut n (take (suc n) rs)).0 ≤ n)
      × ((r : ResultFile) → In r (cut n (take (suc n) rs)).0 → In r rs)
unfolding cut
cut_sound n rs = elim (Bool-cases (ltb n (length (take (suc n) rs)))) [
  | inl y ↦ rw y (
    length-take_le n (take (suc n) rs),
    λ r m. In-take (suc n) rs r (In-take n (take (suc n) rs) r m),
  )
  | inr k ↦ rw k (ground arith, λ r m. In-take (suc n) rs r m)
]

id_at-In :
    (n : ℕ) (rs : List ResultFile)
    → n < length rs
    → (r : ResultFile) × In r rs × (id_at n rs ≡ r.id)
unfolding id_at
id_at-In n [] h = absurd (omega (arith, h))
id_at-In zero (r ∷ rs) h = (r, inl refl, refl)
id_at-In (suc n) (r ∷ rs) h = let (x, m, e) = id_at-In n rs (omega (arith, h)) in (x, inr m, e)

-- A row of the query is on the page, or the page returns a cursor below it and past the last one.
pub cut_complete :
    (n cursor : ℕ) (rs : List ResultFile) (r : ResultFile)
    → Ascending result_id rs
    → ((x : ResultFile) → In x rs → cursor < x.id)
    → In r rs
    → In r (cut (suc n) (take (suc (suc n)) rs)).0
      ⊎ ((cursor < (cut (suc n) (take (suc (suc n)) rs)).1)
          × ((cut (suc n) (take (suc (suc n)) rs)).1 < r.id))
unfolding cut
cut_complete n cursor rs r h past m =
    elim (Bool-cases (ltb (suc n) (length (take (suc (suc n)) rs)))) [
      | inl y ↦
          let (x, k, e) = id_at-In n (take (suc (suc n)) rs) (ground arith) in
          let next : cursor < id_at n (take (suc (suc n)) rs) =
            rw e (past x (In-take (suc (suc n)) rs x k)) in
          let before : suc n - 1 ≡ n = omega arith in
          rw (y, before) (elim (behind n rs r h m) [ inl i ↦ inl i | inr i ↦ inr (next, i) ])
      | inr k ↦ rw k (inl (subst (In r) (sym (take-short (suc n) rs (ground arith))) m))
    ]
