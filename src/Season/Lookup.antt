-- ===== src/Season/Lookup.antt =====
-- The lookups by driver id and by team, over the tables of the season.
use mathlib.Core.Path.{subst}
use formula_one_telemetry_si.Prelude.{
  lt_of_get_elem?, ℕ, zero, suc, ◌+◌, ◌<◌, ◌≡◌, ◌↔◌, refl, ap, ◌∙◌, Bool, true, false, ◌&&◌, not,
  List, [], ◌∷◌, some, arith, get_elem?, Bool-cases, inl, inr, ◌==◌,
}
use formula_one_telemetry_si.Prelude.Int.{pos}
use formula_one_telemetry_si.Prelude.Text.{
  Text, text_eq, text_eq_iff, text_eq_refl, memcpy, until_nul, until_nul-append,
}
use formula_one_telemetry_si.Floats.{Floats}
use formula_one_telemetry_si.Types.{DriverProfile, no_id}
use formula_one_telemetry_si.Season.{drivers, car_for_driver, index_from, driver_index_of}

-- Three bytes, none of them 0.
unfoldable pub short : Text → Bool
short (a ∷ b ∷ c ∷ []) = not (a == 0) && (not (b == 0) && not (c == 0))
short _ = false

module _ {F : Type 0} ⦃f : Floats F⦄ where
  -- An index that the loop returns is that of a driver with the id.
  index_from_sound :
      (k : ℕ) (ds : List (DriverProfile F)) (id : Text) (i : ℕ)
      → index_from k ds id ≡ pos i
      → (j : ℕ) × (d : DriverProfile F) × (i ≡ k + j) × (get_elem? ds j ≡ some d) × (d.id ≡ id)
  unfolding index_from
  index_from_sound k [] id i h = cc
  index_from_sound k (d ∷ ds) id i h = elim (Bool-cases (text_eq d.id id)) [
    | inl here ↦ (0, d, ground arith, refl, (text_eq_iff d.id id).0 here)
    | inr there ↦
        let (j, x, e, at, same) = index_from_sound (suc k) ds id i (rw there at h) in
        (suc j, x, omega arith, at, same)
  ]

  -- Whether no driver of the list has the id, and whether no two have the same.
  absent : Text → List (DriverProfile F) → Bool
  absent id [] = true
  absent id (d ∷ ds) = not (text_eq id d.id) && absent id ds

  distinct : List (DriverProfile F) → Bool
  unfolding absent
  distinct [] = true
  distinct (d ∷ ds) = absent d.id ds && distinct ds

  absent-get_elem? :
      (id : Text) (ds : List (DriverProfile F)) (i : ℕ) (d : DriverProfile F)
      → absent id ds ≡ true
      → get_elem? ds i ≡ some d
      → text_eq id d.id ≡ false
  unfolding absent
  absent-get_elem? id [] i d a e = cc
  absent-get_elem? id (x ∷ ds) zero d a e = ground arith
  absent-get_elem? id (x ∷ ds) (suc i) d a e = ground (arith, absent-get_elem? id ds i d)

  index_from_complete :
      (k : ℕ) (ds : List (DriverProfile F)) (i : ℕ) (d : DriverProfile F)
      → distinct ds ≡ true
      → get_elem? ds i ≡ some d
      → index_from k ds d.id ≡ pos (k + i)
  unfolding index_from distinct
  index_from_complete k [] i d h e = cc
  index_from_complete k (x ∷ ds) zero d h e = ground (arith, text_eq_refl d.id)
  index_from_complete k (x ∷ ds) (suc i) d h e =
      ground (arith, absent-get_elem? x.id ds i d, index_from_complete (suc k) ds i d)

  all_rows : (DriverProfile F → Bool) → List (DriverProfile F) → Bool
  all_rows p [] = true
  all_rows p (d ∷ ds) = p d && all_rows p ds

  all_rows-get_elem? :
      (p : DriverProfile F → Bool) (ds : List (DriverProfile F)) (i : ℕ) (d : DriverProfile F)
      → all_rows p ds ≡ true
      → get_elem? ds i ≡ some d
      → p d ≡ true
  unfolding all_rows
  all_rows-get_elem? p [] i d h e = cc
  all_rows-get_elem? p (x ∷ ds) zero d h e = ground arith
  all_rows-get_elem? p (x ∷ ds) (suc i) d h e = ground (arith, all_rows-get_elem? p ds i d)

-- The id of the `char` array that `memcpy` fills with three bytes of an id.
pub stored_id : (id : Text) → short id ≡ true → until_nul (memcpy 3 id no_id) ≡ id
unfolding short
stored_id [] h = cc
stored_id (a ∷ []) h = cc
stored_id (a ∷ b ∷ []) h = cc
stored_id (a ∷ b ∷ c ∷ d ∷ id) h = cc
stored_id (a ∷ b ∷ c ∷ []) h = until_nul-append (a ∷ b ∷ c ∷ []) [] (ground arith)

module _ (F : Type 0) ⦃f : Floats F⦄ where
  drivers-distinct : distinct (drivers {F = F}) ≡ true
  unfolding distinct text_eq
  drivers-distinct = refl

  index_of_row :
      (i : ℕ) (d : DriverProfile F)
      → get_elem? (drivers {F = F}) i ≡ some d
      → driver_index_of F d.id ≡ pos i
  unfolding driver_index_of
  index_of_row i d e =
      index_from_complete 0 (drivers {F = F}) i d drivers-distinct e ∙ ap pos (omega arith)

  -- `driver_index_of` returns `i` for exactly the id of row `i` of the table.
  pub driver_index_of_iff :
      (id : Text) (i : ℕ)
      → (driver_index_of F id ≡ pos i)
        ↔ ((d : DriverProfile F) × (get_elem? (drivers {F = F}) i ≡ some d) × (d.id ≡ id))
  unfolding driver_index_of
  driver_index_of_iff id i = (
    λ h.
        let (j, d, e, at, same) = index_from_sound 0 (drivers {F = F}) id i h in
        let here : i ≡ j = omega arith in (d, ap (get_elem? (drivers {F = F})) here ∙ at, same),
    λ r. subst (λ t. driver_index_of F t ≡ pos i) r.2 (index_of_row i r.0 r.1),
  )

  drivers-short : all_rows (λ d. short d.id) (drivers {F = F}) ≡ true
  unfolding all_rows short
  drivers-short = refl

  -- What a telemetry frame holds of a driver's id leads back to the driver's index.
  pub driver_index_of-until_nul :
      (i : ℕ) (d : DriverProfile F)
      → get_elem? (drivers {F = F}) i ≡ some d
      → driver_index_of F (until_nul (memcpy 3 d.id no_id)) ≡ pos i
  driver_index_of-until_nul i d e =
      ap (driver_index_of F) (
        stored_id d.id (all_rows-get_elem? (λ d. short d.id) (drivers {F = F}) i d drivers-short e))
      ∙ index_of_row i d e

  drivers-cars : all_rows (λ d. text_eq (car_for_driver d).team d.team) (drivers {F = F}) ≡ true
  unfolding all_rows car_for_driver text_eq
  drivers-cars = refl

  -- Every driver of the table drives a car of the driver's own team: the last row is no fallback.
  pub team-car_for_driver :
      (i : ℕ) (d : DriverProfile F)
      → get_elem? (drivers {F = F}) i ≡ some d
      → (car_for_driver d).team ≡ d.team
  team-car_for_driver i d e = (text_eq_iff (car_for_driver d).team d.team).0 (
      all_rows-get_elem? (λ d. text_eq (car_for_driver d).team d.team) (drivers {F = F}) i d
        drivers-cars e)

  -- An index that `driver_index_of` returns is one of the twenty.
  pub driver_index_of-lt : (id : Text) (i : ℕ) → driver_index_of F id ≡ pos i → i < 20
  driver_index_of-lt id i h =
      let (d, e, same) = (driver_index_of_iff id i).0 h in lt_of_get_elem? (drivers {F = F}) i d e
