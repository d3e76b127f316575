-- ===== src/Json/Insert.antt =====
-- What an insertion into a `serde_json::Map` does to look-ups.
use Prim.Native.Nat.{Ordering}
use Prim.Native.String
use Prim.Native.String.{String}
use text.Mathlib.Text.{is_eq}
use text.Mathlib.TextEquality.{eq_iff, path_by_compare}
use mathlib.Core.Bool.{true≢false}
use token_weasel.Prelude.{
  ◌≡◌, refl, sym, ap, subst, ◌∙◌, true, some, if◌then◌else◌, Bool-cases, inl, inr,
}
use token_weasel.Prelude.Text.{◌=ₛ◌}
use token_weasel.Json.{Value, Fields, end, field, field_get, field_insert}

=ₛ-trans : (s t u : String) → (s =ₛ u) ≡ true → (t =ₛ u) ≡ true → (s =ₛ t) ≡ true
=ₛ-trans s t u p q = subst (λ x. (s =ₛ x) ≡ true) (sym ((eq_iff t u).0 q)) p

-- `field_insert` at a key that compares in the way `o` with the first
inserted_at :
    (o : Ordering) (k j i : String) (v w : Value) (fs : Fields)
    → String.compare k j ≡ o
    → field_get i (field_insert k v fs) ≡ (if k =ₛ i then some v else field_get i fs)
    → field_get i (elim o [
      | Ordering.lt ↦ field k v (field j w fs)
      | Ordering.eq ↦ field k v fs
      | Ordering.gt ↦ field j w (field_insert k v fs)
    ])
      ≡ (if k =ₛ i then some v else field_get i (field j w fs))
unfolding field_get
inserted_at Ordering.lt k j i v w fs e ih = refl
inserted_at Ordering.eq k j i v w fs e ih =
    subst
      (λ x. field_get i (field k v fs) ≡ (if k =ₛ i then some v else field_get i (field x w fs)))
      (path_by_compare k j e) (elim (Bool-cases (k =ₛ i)) [ inl h ↦ rw h refl | inr h ↦ rw h refl ])
inserted_at Ordering.gt k j i v w fs e ih = elim (Bool-cases (k =ₛ i)) [
  | inr h ↦ rw (ih, h) refl
  | inl h ↦ elim (Bool-cases (j =ₛ i)) [
    | inr g ↦ rw (ih, h, g) refl
    | inl g ↦ absurd (true≢false (sym (=ₛ-trans k j i h g) ∙ ap is_eq e))
  ]
]

-- A key that is inserted is found, and every other key is found as before.
pub field_get-insert :
    (k i : String) (v : Value) (fs : Fields)
    → field_get i (field_insert k v fs) ≡ (if k =ₛ i then some v else field_get i fs)
unfolding field_insert field_get
field_get-insert k i v end = refl
field_get-insert k i v (field j w fs) =
    inserted_at (String.compare k j) k j i v w fs refl (field_get-insert k i v fs)
