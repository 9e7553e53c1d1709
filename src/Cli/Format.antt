-- ===== src/Cli/Format.antt =====
-- cli/src/format.rs: times, coordinates and names for display.
use fez_meshcore_controller.Prelude.{
  Text, [], codes, decimal, if◌then◌else◌, leb, ltb, ℕ, ◌%◌, ◌&&◌, ◌++◌, ◌/◌, ◌==◌, ◌∷◌,
}
use fez_meshcore_controller.Prelude.Int.{ℤ, pos, negsuc, sub_ℕ}

-- The text of an age in seconds.
abbrev format_age : ℤ → Text
unfolding decimal
format_age (negsuc n) = codes "just now"
format_age (pos diff) =
    if ltb diff 60
    then decimal diff ++ codes "s ago"
    else if ltb diff 3600
    then decimal (diff / 60) ++ codes "min ago"
    else if ltb diff 86400
    then decimal (diff / 3600) ++ codes "h ago"
    else decimal (diff / 86400) ++ codes "d ago"

-- `now` is the clock's, in seconds, and after 1970.
unfoldable pub format_last_seen : ℕ → ℕ → Text
unfolding decimal
format_last_seen now unix_ts =
    if unix_ts == 0
    then codes "never"
    else if ltb unix_ts 1600000000
    then codes "#" ++ decimal unix_ts
    else format_age (sub_ℕ now unix_ts)

unfoldable pub format_uptime : ℕ → Text
unfolding decimal
format_uptime total_secs =
    let days = total_secs / 86400 in
    let hours = total_secs % 86400 / 3600 in
    let minutes = total_secs % 3600 / 60 in
    if ltb 0 days
    then decimal days ++ (codes "d " ++ (decimal hours ++ codes "h"))
    else if ltb 0 hours
    then decimal hours ++ (codes "h " ++ (decimal minutes ++ codes "m"))
    else decimal minutes ++ codes "m"

-- A regional indicator, from U+1F1E6 to U+1F1FF, is four bytes, of which the last tells them
-- apart. No other character begins with the first byte in the middle.
unfoldable pub strip_flag_emoji : Text → Text
strip_flag_emoji [] = []
strip_flag_emoji (a ∷ b ∷ c ∷ d ∷ text) =
    let rest = strip_flag_emoji text in
    let kept = strip_flag_emoji (b ∷ c ∷ d ∷ text) in
    if a == 240 && b == 159 && c == 135 && leb 166 d && leb d 191 then rest else a ∷ kept
strip_flag_emoji (a ∷ text) = a ∷ strip_flag_emoji text
