-- ===== src/Rcu/Insert.antt =====
-- The insertion point of mock1_rcu.c, its two tests, and the table with a region put in.
use systems_drills.Base.{
  ==_ne, ℕ, suc, ◌+◌, ◌-◌, ◌≤◌, ◌<◌, ◌≡◌, ◌↔◌, ◌⊎◌, refl, ◌∙◌, ap, inl, inr, Bool, false, ◌||◌,
  Option, some, List, map, [], ◌∷◌, arith, ltb, if◌then◌else◌, length, Bool-cases, dec_lt,
}
use systems_drills.Base.Bits.{word, add64, sub64}
use systems_drills.RegionTable.{contains, translate}
use systems_drills.Rcu.{Region, find_pos, before_overlaps, after_overlaps, copy_with}
use systems_drills.Rcu.Lookup.{Fits, Above, IsTable, as_region}

-- The two regions share no address.
abbrev pub Disjoint : Region → Region → Type 0
Disjoint r q = (r.gpa_start + r.size ≤ q.gpa_start) ⊎ (q.gpa_start + q.size ≤ r.gpa_start)

abbrev pub AllDisjoint : Region → List Region → Type 0
AllDisjoint rgn [] = Unit
AllDisjoint rgn (r ∷ t) = Disjoint rgn r × AllDisjoint rgn t

-- The region put at its place, from the list alone.
abbrev pub insert : Region → List Region → List Region
insert rgn [] = rgn ∷ []
insert rgn (r ∷ t) = if ltb r.gpa_start rgn.gpa_start then r ∷ insert rgn t else rgn ∷ r ∷ t

pub copy_with-find_pos :
    (t : List Region) (rgn : Region) → copy_with t rgn (find_pos t rgn) ≡ insert rgn t
unfolding find_pos
copy_with-find_pos [] rgn = refl
copy_with-find_pos (r ∷ t) rgn = elim (Bool-cases (ltb r.gpa_start rgn.gpa_start)) [
  | inl e ↦ rw e (ap (λ z. r ∷ z) (copy_with-find_pos t rgn))
  | inr e ↦ rw e
]

-- Where the last region that starts below the new one ends, and whether the first other one starts
-- inside it: what the two tests look at.
abbrev pub before_end : ℕ → List Region → Region → ℕ
before_end e [] rgn = e
before_end e (r ∷ t) rgn =
    if ltb r.gpa_start rgn.gpa_start then before_end (r.gpa_start + r.size) t rgn else e

abbrev pub after_inside : List Region → Region → Bool
after_inside [] rgn = false
after_inside (r ∷ t) rgn =
    if ltb r.gpa_start rgn.gpa_start
    then after_inside t rgn
    else ltb r.gpa_start (rgn.gpa_start + rgn.size)

before_first :
    (q : Region) (t : List Region) (rgn : Region)
    → Fits q
    → before_overlaps (q ∷ t) rgn 1 ≡ some (ltb rgn.gpa_start (q.gpa_start + q.size))
unfolding before_overlaps
before_first q t rgn f = ground (arith, f.guest)

after_overlaps-suc :
    (q : Region) (t : List Region) (rgn : Region) (p : ℕ)
    → after_overlaps (q ∷ t) rgn (suc p) ≡ after_overlaps t rgn p
unfolding after_overlaps
after_overlaps-suc q t rgn p = ground arith

before_overlaps-suc :
    (q : Region) (t : List Region) (rgn : Region) (p : ℕ)
    → before_overlaps (q ∷ t) rgn (suc (suc p)) ≡ before_overlaps t rgn (suc p)
unfolding before_overlaps
before_overlaps-suc q t rgn p = rw (
  less (suc p),
  less p,
  ==_ne (suc (suc p)) 0 (λ e. omega arith),
  ==_ne (suc p) 0 (λ e. omega arith),
)
  where
    less : (n : ℕ) → suc n - 1 ≡ n
    less n = omega arith

before_overlaps-cons :
    (q : Region) (t : List Region) (rgn : Region)
    → Fits q
    → Above (q.gpa_start + q.size) t
    → before_overlaps (q ∷ t) rgn (suc (find_pos t rgn))
      ≡ some (ltb rgn.gpa_start (before_end (q.gpa_start + q.size) t rgn))
unfolding find_pos
before_overlaps-cons q [] rgn f a = before_first q [] rgn f
before_overlaps-cons q (r ∷ t) rgn f a = elim (Bool-cases (ltb r.gpa_start rgn.gpa_start)) [
  | inl e ↦
      rw e
        (before_overlaps-suc q (r ∷ t) rgn (find_pos t rgn) ∙ before_overlaps-cons r t rgn a.1 a.2)
  | inr e ↦ rw e (before_first q (r ∷ t) rgn f)
]

pub before_overlaps_lem :
    (t : List Region) (rgn : Region)
    → IsTable t
    → before_overlaps t rgn (find_pos t rgn) ≡ some (ltb rgn.gpa_start (before_end 0 t rgn))
unfolding find_pos before_overlaps
before_overlaps_lem [] rgn a = ground arith
before_overlaps_lem (r ∷ t) rgn a = elim (Bool-cases (ltb r.gpa_start rgn.gpa_start)) [
  | inl e ↦ rw e (before_overlaps-cons r t rgn a.1 a.2)
  | inr e ↦ ground arith
]

pub after_overlaps_lem :
    (t : List Region) (rgn : Region)
    → Fits rgn
    → after_overlaps t rgn (find_pos t rgn) ≡ some (after_inside t rgn)
unfolding find_pos after_overlaps
after_overlaps_lem [] rgn f = refl
after_overlaps_lem (r ∷ t) rgn f = elim (Bool-cases (ltb r.gpa_start rgn.gpa_start)) [
  | inl e ↦ rw e (after_overlaps-suc r t rgn (find_pos t rgn) ∙ after_overlaps_lem t rgn f)
  | inr e ↦ ground (arith, f.guest)
]

AllDisjoint-below :
    (lo : ℕ) (t : List Region) (rgn : Region)
    → Above lo t
    → rgn.gpa_start + rgn.size ≤ lo
    → AllDisjoint rgn t
AllDisjoint-below lo [] rgn a le = tt
AllDisjoint-below lo (r ∷ t) rgn a le = (
  inl (omega (arith, a.0)),
  AllDisjoint-below (r.gpa_start + r.size) t rgn a.2 (omega (arith, a.0)),
)

-- The two tests against the neighbours are as good as a test against every region.
pub neighbours_iff :
    (e : ℕ) (t : List Region) (rgn : Region)
    → Fits rgn
    → Above e t
    → (ltb rgn.gpa_start (before_end e t rgn) || after_inside t rgn ≡ false)
      ↔ (e ≤ rgn.gpa_start) × AllDisjoint rgn t
neighbours_iff e [] rgn f a = ground arith
neighbours_iff e (r ∷ t) rgn f a = elim (dec_lt r.gpa_start rgn.gpa_start) [
  | yes lt ↦
      let ih = neighbours_iff (r.gpa_start + r.size) t rgn f a.2 in
      ground (arith, ih, f.some_size, a.0)
  | no ge ↦ ground (arith, a.0, a.1.some_size, AllDisjoint-below (r.gpa_start + r.size) t rgn a.2)
]

pub insert-Above :
    (e : ℕ) (t : List Region) (rgn : Region)
    → Fits rgn
    → Above e t
    → e ≤ rgn.gpa_start
    → AllDisjoint rgn t
    → Above e (insert rgn t)
insert-Above e [] rgn f a le d = (le, f, tt)
insert-Above e (r ∷ t) rgn f a le d = elim (dec_lt r.gpa_start rgn.gpa_start) [
  | yes lt ↦
      let ih = insert-Above (r.gpa_start + r.size) t rgn f a.2 in
      ground (arith, ih, d.0, f.some_size)
  | no ge ↦ ground (arith, d.0, a.1.some_size)
]

pub length-insert : (rgn : Region) (t : List Region) → length (insert rgn t) ≡ length t + 1
length-insert rgn [] = refl
length-insert rgn (r ∷ t) = ground (arith, length-insert rgn t)

-- What a lookup finds once the region is there.
abbrev pub with_region : Region → List Region → ℕ → Option ℕ
with_region rgn t gpa =
    if contains (as_region rgn) gpa
    then some (add64 rgn.hva (sub64 gpa rgn.gpa_start))
    else translate (map as_region t) gpa

pub translate-insert :
    (e : ℕ) (t : List Region) (rgn : Region) (gpa : ℕ)
    → Fits rgn
    → Above e t
    → gpa < word
    → AllDisjoint rgn t
    → translate (map as_region (insert rgn t)) gpa ≡ with_region rgn t gpa
unfolding translate contains
translate-insert e [] rgn gpa f a h d = refl
translate-insert e (r ∷ t) rgn gpa f a h d = elim (dec_lt r.gpa_start rgn.gpa_start) [
  | yes lt ↦ ground (
    arith,
    d.0,
    f.guest,
    a.1.guest,
    translate-insert (r.gpa_start + r.size) t rgn gpa f a.2 h d.1,
  )
  | no ge ↦ ground arith
]
