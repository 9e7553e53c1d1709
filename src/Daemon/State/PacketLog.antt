-- ===== src/Daemon/State/PacketLog.antt =====
-- The rotating packet log holds the newest packets, in their order, and no more than its capacity.
use fez_meshcore_controller.Prelude.{
  Bool-cases, List, [], ap, arith, drop_last, if◌then◌else◌, inl, inr, leb, leb-false, leb→le,
  length, length-take, max, min, refl, reverse, suc, sym, take, take-eq_self, zero, ℕ, ◌-◌, ◌<◌,
  ◌∙◌, ◌∷◌, ◌≡◌, ◌≤◌,
}
use mathlib.Core.List.{reverse_aux}
use fez_meshcore_controller.Core.Config.{Config}
use fez_meshcore_controller.Core.Mesh.{PacketLogEntry}
use fez_meshcore_controller.Daemon.RepeaterDb.{Table}
use fez_meshcore_controller.Daemon.State.{AppState, new, record_packet}

drop_last-take :
    {A : Type 0} (n : ℕ) (xs : List A) → n < length xs → drop_last (take (suc n) xs) ≡ take n xs
drop_last-take n [] h = elim h [ ]
drop_last-take zero (x ∷ xs) h = refl
drop_last-take (suc n) (x ∷ []) h = absurd (omega arith)
drop_last-take (suc n) (x ∷ y ∷ xs) h = ap (λ l. x ∷ l) (drop_last-take n (y ∷ xs) (omega arith))

-- The log after the eviction.
trimmed :
    (cap : ℕ) (heard : List PacketLogEntry)
    → let log = take (suc cap) heard in
      (if leb (suc cap) (length log) then drop_last log else log) ≡ take cap heard
trimmed cap heard =
    let size : length (take (suc cap) heard) ≡ min (suc cap) (length heard) =
      length-take (suc cap) heard in
    elim (Bool-cases (leb (suc cap) (length (take (suc cap) heard)))) [
      | inl full ↦ rw full (drop_last-take cap heard (omega (arith, leb→le _ _ full, size)))
      | inr room ↦
          let few : length heard ≤ cap = omega (arith, leb-false _ _ room, size) in
          rw room (take-eq_self (suc cap) heard (omega arith) ∙ sym (take-eq_self cap heard few))
    ]

pub record_all : AppState → List PacketLogEntry → AppState
record_all s [] = s
record_all s (entry ∷ entries) = record_all (record_packet s entry) entries

-- One packet more: the newest in front, and at most `cap` of them.
record_packet-take :
    (s : AppState) (cap : ℕ) (entry : PacketLogEntry) (heard : List PacketLogEntry)
    → s.packet_log_capacity ≡ suc cap
    → s.packet_log ≡ take (suc cap) heard
    → (record_packet s entry).packet_log ≡ take (suc cap) (entry ∷ heard)
unfolding record_packet
record_packet-take s cap entry heard c e = rw (c, e) (ap (λ l. entry ∷ l) (trimmed cap heard))

record_all-take :
    (s : AppState) (cap : ℕ) (entries heard : List PacketLogEntry)
    → s.packet_log_capacity ≡ suc cap
    → s.packet_log ≡ take (suc cap) heard
    → (record_all s entries).packet_log ≡ take (suc cap) (reverse_aux entries heard)
unfolding record_all
record_all-take s cap [] heard c e = e
record_all-take s cap (entry ∷ entries) heard c e =
    record_all-take (record_packet s entry) cap entries (entry ∷ heard) (unfold record_packet in c)
      (record_packet-take s cap entry heard c e)

-- After any packets the log of a new daemon holds the newest of them, newest first, as many as
-- its capacity, which is the configured one but at least 1.
pub packet_log_holds_newest :
    (config : Config) (table : Table) (entries : List PacketLogEntry)
    → (record_all (new config table) entries).packet_log
      ≡ take (max config.daemon.packet_log_capacity 1) (reverse entries)
unfolding new
packet_log_holds_newest config table entries =
    let cap : ℕ = max config.daemon.packet_log_capacity 1 - 1 in
    let e : max config.daemon.packet_log_capacity 1 ≡ suc cap = omega arith in
    record_all-take (new config table) cap entries [] e refl
    ∙ ap (λ n. take n (reverse entries)) (sym e)
