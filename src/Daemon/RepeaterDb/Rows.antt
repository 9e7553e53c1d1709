-- ===== src/Daemon/RepeaterDb/Rows.antt =====
-- The table by key prefix: what `upsert` does to the row of each prefix, and what is loaded.
use fez_meshcore_controller.Prelude.{
  All, Bool-cases, Option, Text, [], arith, false, if◌then◌else◌, inl, inr, none, refl, some, sym,
  take, text_eq, text_eq_iff, text_eq_sym, ◌∙◌, ◌∷◌, ◌≡◌,
}
use fez_meshcore_controller.Prelude.Map.{HashMap, lookup, insert, lookup-insert}
use fez_meshcore_controller.Core.Mesh.{DiscoveredNode}
use fez_meshcore_controller.Daemon.RepeaterDb.{
  Row, Table, update_row, insert_row, node_of_row, load_rows, load_all,
}

pub row_of : Text → Table → Option Row
row_of k [] = none
row_of k (r ∷ rs) = if text_eq r.public_key_prefix_hex k then some r else row_of k rs

-- No two rows have one prefix.
abbrev pub Distinct : Table → Type 0
Distinct [] = Unit {0}
Distinct (r ∷ rs) = (row_of r.public_key_prefix_hex rs ≡ none) × Distinct rs

-- A full key and its prefix: the prefix is cut from the key, and `key_of` is the one key heard on
-- the mesh that begins with it.
pub record IsKeyed (key_of : Text → Text) (key prefix : Text) : Type 0 where
  pub cut : prefix ≡ take 12 key
  pub only : key ≡ key_of prefix

abbrev pub IsKeyedRow : (Text → Text) → Row → Type 0
IsKeyedRow key_of r = IsKeyed key_of r.public_key_hex r.public_key_prefix_hex

abbrev pub loaded_row : Option Row → Option DiscoveredNode → Option DiscoveredNode
loaded_row none o = o
loaded_row (some r) o = some (node_of_row r)

lookup-load_rows :
    (k : Text) (nodes : HashMap DiscoveredNode) (rs : Table)
    → Distinct rs
    → lookup k (load_rows nodes rs) ≡ loaded_row (row_of k rs) (lookup k nodes)
unfolding load_rows row_of
lookup-load_rows k nodes [] d = refl
lookup-load_rows k nodes (r ∷ rs) d =
    let p = r.public_key_prefix_hex in
    ground (
      arith,
      lookup-load_rows k (insert p (node_of_row r) nodes) rs d.1,
      lookup-insert p k (node_of_row r) nodes,
      text_eq_iff p k,
    )

pub lookup-load_all :
    (k : Text) (rs : Table) → Distinct rs → lookup k (load_all rs) ≡ loaded_row (row_of k rs) none
unfolding load_all lookup
lookup-load_all k rs d = lookup-load_rows k [] rs d

abbrev pub stored_row : Row → Option Row → Row
stored_row new none = new
stored_row new (some old) = update_row old new

same_key :
    (key_of : Text → Text) (a b c d : Text)
    → IsKeyed key_of a b
    → IsKeyed key_of c d
    → text_eq a c ≡ text_eq b d
same_key key_of a b c d p q =
    ground (arith, text_eq_iff a c, text_eq_iff b d, p.cut, p.only, q.cut, q.only)

module _ (key_of : Text → Text) (new : Row) (keyed : IsKeyedRow key_of new) where
  -- Only the row of the sighting's prefix changes.
  pub row_of-insert_row :
      (k : Text) (rs : Table)
      → All (IsKeyedRow key_of) rs
      → row_of k (insert_row new rs) ≡ (
          if text_eq new.public_key_prefix_hex k
          then some (stored_row new (row_of new.public_key_prefix_hex rs))
          else row_of k rs)
  unfolding row_of insert_row update_row
  row_of-insert_row k [] h = refl
  row_of-insert_row k (r ∷ rs) h =
      let p = new.public_key_prefix_hex in
      let q = r.public_key_prefix_hex in
      ground (
        arith,
        same_key key_of r.public_key_hex q new.public_key_hex p h.0 keyed,
        row_of-insert_row k rs h.1,
        text_eq_iff p k,
        text_eq_iff q k,
        text_eq_iff q p,
      )

  pub insert_row-Distinct :
      (rs : Table) → All (IsKeyedRow key_of) rs → Distinct rs → Distinct (insert_row new rs)
  unfolding insert_row update_row
  insert_row-Distinct [] h d = (unfold row_of in refl, tt)
  insert_row-Distinct (r ∷ rs) h d =
      let p = new.public_key_prefix_hex in
      let q = r.public_key_prefix_hex in
      let same_prefix = same_key key_of r.public_key_hex q new.public_key_hex p h.0 keyed in
      elim (Bool-cases (text_eq r.public_key_hex new.public_key_hex)) [
        | inl same ↦
            let e : q ≡ p = (text_eq_iff q p).0 (sym same_prefix ∙ same) in
            rw same (rw e at d.0, d.1)
        | inr other ↦
            let apart : text_eq p q ≡ false = text_eq_sym p q ∙ sym same_prefix ∙ other in
            rw other (row_of-insert_row q rs h.1 ∙ rw apart d.0, insert_row-Distinct rs h.1 d.1)
      ]

  pub insert_row-IsKeyed :
      (rs : Table) → All (IsKeyedRow key_of) rs → All (IsKeyedRow key_of) (insert_row new rs)
  unfolding insert_row update_row
  insert_row-IsKeyed [] h = (keyed, tt)
  insert_row-IsKeyed (r ∷ rs) h = elim (Bool-cases (text_eq r.public_key_hex new.public_key_hex)) [
    | inl same ↦
        let e : r.public_key_hex ≡ new.public_key_hex = (text_eq_iff _ _).0 same in
        rw same (rw (← e) at keyed, h.1)
    | inr other ↦ rw other (h.0, insert_row-IsKeyed rs h.1)
  ]

-- A row that is found has the prefix that was asked for.
pub row_of-prefix :
    (key_of : Text → Text) (k : Text) (rs : Table) (r : Row)
    → All (IsKeyedRow key_of) rs
    → row_of k rs ≡ some r
    → (r.public_key_prefix_hex ≡ k) × (r.public_key_hex ≡ key_of k)
unfolding row_of
row_of-prefix key_of k [] r h e = cc
row_of-prefix key_of k (x ∷ rs) r h e = elim (Bool-cases (text_eq x.public_key_prefix_hex k)) [
  | inl same ↦
      let at_k = (text_eq_iff x.public_key_prefix_hex k).0 same in
      let hit : some x ≡ some r = rw same at e in ground (arith, at_k, hit, h.0.only)
  | inr other ↦ row_of-prefix key_of k rs r h.1 (rw other at e)
]
