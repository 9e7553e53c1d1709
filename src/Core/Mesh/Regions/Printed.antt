-- ===== src/Core/Mesh/Regions/Printed.antt =====
-- `parse_region_hierarchy` of core/src/mesh.rs against a printer of the lines that its comment
-- describes.
use fez_meshcore_controller.Prelude.{
  All, All-append, Bool, Bool-cases, List, Text, [], ap, arith, false, if◌then◌else◌, inl, inr,
  is_some, length, length-append, length-replicate, none, refl, replicate, some, suc, text_eq,
  text_eq_iff, text_eq_refl, true, unwrap_or, zero, ℕ, ◌%◌, ◌++◌, ◌-◌, ◌<◌, ◌^◌, ◌∙◌, ◌∷◌, ◌≡◌,
}
use mathlib.Core.List.{append-nil}
use fez_meshcore_controller.Prelude.Int.{ℤ}
use fez_meshcore_controller.Core.Mesh.{RegionHierarchyEntryDto}
use fez_meshcore_controller.Core.Mesh.Regions.{
  lines, trim_start, trim_end, strip_suffix, flood_mark, home_mark, region_entry, region_of_line,
  parse_region_hierarchy,
}

abbrev pub mark_if : Bool → Text → Text
mark_if true mark = mark
mark_if false mark = []

abbrev pub print_label : RegionHierarchyEntryDto → Text
print_label e = (e.name ++ mark_if e.is_home home_mark) ++ mark_if e.flood_allowed flood_mark

-- A line of the printer, without its line break.
abbrev pub print_line : RegionHierarchyEntryDto → Text
print_line e = replicate e.depth b' ' ++ print_label e

unfoldable pub print_regions : List RegionHierarchyEntryDto → Text
print_regions [] = []
print_regions (e ∷ es) = print_line e ++ (b'\n' ∷ print_regions es)

-- A depth of one byte, and a name of visible characters that does not end in the home mark.
abbrev pub IsPrintable : RegionHierarchyEntryDto → Type 0
IsPrintable e =
    (e.depth < 256)
    × (0 < length e.name)
    × All (λ c. 32 < c) e.name
    × (strip_suffix home_mark e.name ≡ none)

text_eq_longer : (c : ℕ) (x s : Text) → text_eq (c ∷ (x ++ s)) s ≡ false
text_eq_longer c x s = elim (Bool-cases (text_eq (c ∷ (x ++ s)) s)) [
  | inl e ↦
      absurd (omega (arith, length-append x s, ap length ((text_eq_iff (c ∷ (x ++ s)) s).0 e)))
  | inr e ↦ e
]

strip_suffix-append : (x s : Text) → strip_suffix s (x ++ s) ≡ some x
unfolding strip_suffix
strip_suffix-append [] [] = refl
strip_suffix-append [] (c ∷ s) = rw (text_eq_refl (c ∷ s)) refl
strip_suffix-append (c ∷ x) s = rw (text_eq_longer c x s, strip_suffix-append x s) refl

no_flood : (text : Text) → All (λ c. 32 < c) text → strip_suffix flood_mark text ≡ none
unfolding strip_suffix text_eq
no_flood [] h = refl
no_flood (c ∷ text) h = ground (arith, h.0, no_flood text h.1)

trim_start-replicate :
    (d c : ℕ) (text : Text) → 32 < c → trim_start b' ' (replicate d b' ' ++ c ∷ text) ≡ c ∷ text
unfolding trim_start
trim_start-replicate zero c text h = ground (arith, h)
trim_start-replicate (suc d) c text h = trim_start-replicate d c text h

trim_end-visible : (text : Text) → All (λ c. 13 < c) text → trim_end b'\r' text ≡ text
unfolding trim_end
trim_end-visible [] h = refl
trim_end-visible (c ∷ text) h = rw (trim_end-visible text h.1) (ground (arith, h.0))

lines-append :
    (line text : Text) → All (λ c. 13 < c) line → lines (line ++ (b'\n' ∷ text)) ≡ line ∷ lines text
unfolding lines
lines-append [] text h = refl
lines-append (c ∷ line) text h = rw (lines-append line text h.1) (ground (arith, h.0))

flood_stripped :
    (base : Text) (b : Bool)
    → All (λ c. 32 < c) base
    → (strip_suffix flood_mark (base ++ mark_if b flood_mark) ≡ (if b then some base else none))
      × (unwrap_or (if b then some base else none) (base ++ mark_if b flood_mark) ≡ base)
flood_stripped base true h = (strip_suffix-append base flood_mark, refl)
flood_stripped base false h =
    (ap (strip_suffix flood_mark) (append-nil base) ∙ no_flood base h, append-nil base)

home_stripped :
    (name : Text) (b : Bool)
    → strip_suffix home_mark name ≡ none
    → (strip_suffix home_mark (name ++ mark_if b home_mark) ≡ (if b then some name else none))
      × (unwrap_or (if b then some name else none) (name ++ mark_if b home_mark) ≡ name)
home_stripped name true h = (strip_suffix-append name home_mark, refl)
home_stripped name false h = (ap (strip_suffix home_mark) (append-nil name) ∙ h, append-nil name)

is_some_if : {A : Type 0} (b : Bool) (a : A) → is_some (if b then some a else none) ≡ b
is_some_if true a = refl
is_some_if false a = refl

AreVisible-mark : (b : Bool) → All (λ c. 32 < c) (mark_if b home_mark)
AreVisible-mark true = (omega arith, tt)
AreVisible-mark false = tt

-- The entry of a label of the two marks.
region_entry-label :
    (depth c : ℕ) (n : Text) (home flood : Bool)
    → depth < 256
    → All (λ k. 32 < k) (c ∷ n)
    → strip_suffix home_mark (c ∷ n) ≡ none
    → region_entry depth (((c ∷ n) ++ mark_if home home_mark) ++ mark_if flood flood_mark)
      ≡ some (record { name = c ∷ n; depth = depth; is_home = home; flood_allowed = flood })
unfolding region_entry
region_entry-label depth c n home flood d h k =
    let base = (c ∷ n) ++ mark_if home home_mark in
    let f = flood_stripped base flood (All-append _ (c ∷ n) _ h (AreVisible-mark home)) in
    let g = home_stripped (c ∷ n) home k in
    let small : depth % 2 ^ 8 ≡ depth = omega (arith, d) in
    rw (f.0, f.1, g.0, g.1, is_some_if home (c ∷ n), is_some_if flood base, small) refl

-- The characters of a label are after the space, or are the space of the flood mark.
above : {P Q : ℕ → Type 0} (xs : Text) → ((c : ℕ) → P c → Q c) → All P xs → All Q xs
above [] f h = tt
above (x ∷ xs) f h = (f x h.0, above xs f h.1)

AreInline-label :
    (text : Text) (flood : Bool)
    → All (λ c. 32 < c) text
    → All (λ c. 13 < c) (text ++ mark_if flood flood_mark)
AreInline-label text flood h =
    All-append _ text _ (above text (λ c k. omega (arith, k)) h) (AreInline-flood flood)
  where
    AreInline-flood : (b : Bool) → All (λ c. 13 < c) (mark_if b flood_mark)
    AreInline-flood true = (omega arith, (omega arith, tt))
    AreInline-flood false = tt

AreInline-replicate : (d : ℕ) → All (λ c. 13 < c) (replicate d b' ')
AreInline-replicate zero = tt
AreInline-replicate (suc d) = (omega arith, AreInline-replicate d)

length-indented : (d : ℕ) (text : Text) → length (replicate d b' ' ++ text) - length text ≡ d
length-indented d text =
    omega (arith, length-append (replicate d b' ') text, length-replicate {A = ℕ} d b' ')

AreVisible-base :
    (e : RegionHierarchyEntryDto)
    → IsPrintable e
    → All (λ c. 32 < c) (e.name ++ mark_if e.is_home home_mark)
AreVisible-base e h = All-append _ e.name _ h.2 (AreVisible-mark e.is_home)

AreInline-line : (e : RegionHierarchyEntryDto) → IsPrintable e → All (λ c. 13 < c) (print_line e)
AreInline-line e h =
    All-append _ (replicate e.depth b' ') _ (AreInline-replicate e.depth)
      (AreInline-label _ e.flood_allowed (AreVisible-base e h))

region_of_line_parts :
    (name : Text) (depth : ℕ) (home flood : Bool)
    → depth < 256
    → 0 < length name
    → All (λ k. 32 < k) name
    → strip_suffix home_mark name ≡ none
    → region_of_line
        (replicate depth b' ' ++ ((name ++ mark_if home home_mark) ++ mark_if flood flood_mark))
      ≡ some (record { name = name; depth = depth; is_home = home; flood_allowed = flood })
unfolding region_of_line
region_of_line_parts [] depth home flood d l h k = absurd (omega (arith, l))
region_of_line_parts (c ∷ n) depth home flood d l h k =
    let label = ((c ∷ n) ++ mark_if home home_mark) ++ mark_if flood flood_mark in
    let base : All (λ k. 32 < k) ((c ∷ n) ++ mark_if home home_mark) =
      All-append _ (c ∷ n) _ h (AreVisible-mark home) in
    let start : trim_start b' ' (replicate depth b' ' ++ label) ≡ label =
      trim_start-replicate depth c _ h.0 in
    let end : trim_end b'\r' label ≡ label =
      trim_end-visible label (AreInline-label ((c ∷ n) ++ mark_if home home_mark) flood base) in
    rw (start, end, length-indented depth label) (region_entry-label depth c n home flood d h k)

-- A printed line is read as its entry.
region_of_line-print_line :
    (e : RegionHierarchyEntryDto) → IsPrintable e → region_of_line (print_line e) ≡ some e
region_of_line-print_line e h =
    region_of_line_parts e.name e.depth e.is_home e.flood_allowed h.0 h.1 h.2 h.3

-- The text of a list of entries, a line for each (a space per level of depth, the name, `^` for
-- the home region and " F" where flood is allowed), is parsed into just these entries, provided
-- that each depth fits a byte and each name is visible characters, at least one, without a
-- final `^`.
pub parse-print_regions :
    (es : List RegionHierarchyEntryDto) (fetched_at_unix : ℤ)
    → All IsPrintable es
    → (parse_region_hierarchy (print_regions es) fetched_at_unix).entries ≡ es
unfolding parse_region_hierarchy print_regions
parse-print_regions [] at h = refl
parse-print_regions (e ∷ es) at h =
    rw
      (
        lines-append (print_line e) (print_regions es) (AreInline-line e h.0),
        region_of_line-print_line e h.0,
        parse-print_regions es at h.1,
      )
      refl
