-- ===== src/Cli/Repeater.antt =====
-- `find_contact` of cli/src/repeater.rs: the contact that a command's argument names.
pub mod Unique
use fez_meshcore_controller.Prelude.{
  Bool, List, Text, [], any, codes, decimal, false, filter, if◌then◌else◌, is_empty, length, map,
  starts_with, suc, to_ascii_lowercase, true, zero, ℕ, ◌++◌, ◌-◌, ◌==◌, ◌∷◌,
}
use fez_meshcore_controller.Core.Mesh.{ContactDto}
use fez_meshcore_controller.Core.Mesh.Detail.{Outcome, ok, err}
use fez_meshcore_controller.Core.Ipc.{Snapshot}

-- The characters of Unicode's White_Space, by their length in UTF-8.
abbrev spaces_of_one : List Text
spaces_of_one = map (λ c. c ∷ []) (9 ∷ 10 ∷ 11 ∷ 12 ∷ 13 ∷ 32 ∷ [])

abbrev spaces_of_two : List Text
spaces_of_two = (194 ∷ 133 ∷ []) ∷ (194 ∷ 160 ∷ []) ∷ []

abbrev spaces_of_three : List Text
spaces_of_three =
    (225 ∷ 154 ∷ 128 ∷ [])
    ∷ (226 ∷ 129 ∷ 159 ∷ [])
    ∷ (227 ∷ 128 ∷ 128 ∷ [])
    ∷ map (λ c. 226 ∷ 128 ∷ c ∷ [])
        (128 ∷ 129 ∷ 130 ∷ 131 ∷ 132 ∷ 133 ∷ 134 ∷ 135 ∷ 136 ∷ 137 ∷ 138 ∷ 168 ∷ 169 ∷ 175 ∷ [])

-- The length of the white space that a text begins with, of one character, or zero.
unfoldable pub space_at : Text → ℕ
unfolding starts_with
space_at text =
    if any (starts_with text) spaces_of_one
    then 1
    else if any (starts_with text) spaces_of_two
    then 2
    else if any (starts_with text) spaces_of_three
    then 3
    else 0

-- Whether a text is white space only, the first `skipped` bytes aside.
unfoldable pub is_blank : ℕ → Text → Bool
unfolding space_at
is_blank skipped [] = true
is_blank (suc skipped) (c ∷ text) = is_blank skipped text
is_blank zero (c ∷ text) =
    let rest = is_blank (space_at (c ∷ text) - 1) text in
    if space_at (c ∷ text) == 0 then false else rest

-- `str::trim`: no white space begins in the middle of a character, so the end is searched for at
-- each byte.
unfoldable pub trim_start_from : ℕ → Text → Text
unfolding space_at
trim_start_from skipped [] = []
trim_start_from (suc skipped) (c ∷ text) = trim_start_from skipped text
trim_start_from zero (c ∷ text) =
    let rest = trim_start_from (space_at (c ∷ text) - 1) text in
    if space_at (c ∷ text) == 0 then c ∷ text else rest

unfoldable pub trim_end_blank : Text → Text
unfolding is_blank
trim_end_blank [] = []
trim_end_blank (c ∷ text) =
    let rest = trim_end_blank text in if is_blank 0 (c ∷ text) then [] else c ∷ rest

unfoldable pub trim : Text → Text
unfolding trim_start_from trim_end_blank
trim text = trim_end_blank (trim_start_from 0 text)

unfoldable pub has_prefix : Text → ContactDto → Bool
unfolding starts_with to_ascii_lowercase
has_prefix needle c = starts_with (to_ascii_lowercase c.public_key_prefix_hex) needle

-- The arms of the number of matches. The dash of the last message is three bytes.
unfoldable pub single_match : Text → List ContactDto → Outcome ContactDto
unfolding decimal
single_match input [] =
    err (codes "no known contact matches prefix \"" ++ (input ++ codes "\" (see `repeater list`)"))
single_match input (c ∷ []) = ok c
single_match input (c ∷ d ∷ more) = err (
    codes "prefix \""
    ++ (input
        ++ (codes "\" is ambiguous ("
            ++ (decimal (length (c ∷ d ∷ more))
                ++ (codes " matches) "
                    ++ (226 ∷ 128 ∷ 148 ∷ codes " provide more hex characters"))))))

unfoldable pub find_contact : Snapshot → Text → Outcome ContactDto
unfolding trim to_ascii_lowercase has_prefix single_match
find_contact snapshot input =
    let needle = to_ascii_lowercase (trim input) in
    if is_empty needle
    then err (codes "a public key prefix is required (see `repeater list`)")
    else single_match input (filter (has_prefix needle) snapshot.contacts)
