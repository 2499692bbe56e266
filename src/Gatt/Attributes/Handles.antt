-- ===== src/Gatt/Attributes/Handles.antt =====
-- Handles that are told apart tell the attributes apart.
use esp32_remot_control.Prelude.{
  ℕ, zero, suc, ◌<◌, ◌≡◌, Bool, true, false, not, ◌&&◌, List, [], ◌∷◌, length, ◌==◌, arith,
}
use esp32_remot_control.Gatt.Attributes.{Index, position, efbe_idx_nb, at, handle_of}

abbrev pub absent : ℕ → List ℕ → Bool
absent h [] = true
absent h (x ∷ t) = not (h == x) && absent h t

abbrev pub distinct : List ℕ → Bool
distinct [] = true
distinct (h ∷ t) = absent h t && distinct t

-- As many handles as attributes, all different.
pub record IsTable (t : List ℕ) : Type 0 where
  pub complete : length t ≡ efbe_idx_nb
  pub different : distinct t ≡ true

absent-at : (h : ℕ) (t : List ℕ) (i : ℕ) → absent h t ≡ true → i < length t → (h == at t i) ≡ false
absent-at h [] i a l = absurd (omega arith)
absent-at h (x ∷ t) zero a l = ground arith
absent-at h (x ∷ t) (suc i) a l = ground (arith, absent-at h t i)

at-eq :
    (t : List ℕ) (i j : ℕ)
    → distinct t ≡ true
    → i < length t
    → j < length t
    → (at t i == at t j) ≡ (i == j)
at-eq [] i j d k l = absurd (omega arith)
at-eq (h ∷ t) zero zero d k l = ground arith
at-eq (h ∷ t) zero (suc j) d k l = ground (arith, absent-at h t j)
at-eq (h ∷ t) (suc i) zero d k l = ground (arith, absent-at h t i)
at-eq (h ∷ t) (suc i) (suc j) d k l = ground (arith, at-eq t i j)

pub position-lt : (i : Index) → position i < efbe_idx_nb
position-lt i = ground arith

-- Two attributes have the same handle where they are the same.
pub handle_of-eq :
    (t : List ℕ) (i j : Index)
    → IsTable t
    → (handle_of t i == handle_of t j) ≡ (position i == position j)
handle_of-eq t i j w =
    at-eq t (position i) (position j) w.different (omega (arith, position-lt i, w.complete))
      (omega (arith, position-lt j, w.complete))
