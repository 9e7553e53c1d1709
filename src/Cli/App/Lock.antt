-- ===== src/Cli/App/Lock.antt =====
-- The scroll lock of the packet page.
use fez_meshcore_controller.Prelude.{
  All, List, [], ap, arith, length, length-append, none, refl, some, sym, take, take-eq_self, ℕ,
  ◌++◌, ◌+◌, ◌<◌, ◌∙◌, ◌∷◌, ◌≡◌, ◌≤◌,
}
use fez_meshcore_controller.Core.Mesh.{PacketLogEntry}
use fez_meshcore_controller.Cli.App.{
  App, max_packets, visible_packets, push_packet, toggle_scroll_lock, count_newer,
  new_packets_since_lock,
}

-- The packets, in the order that they arrive in.
unfoldable pub push_all : App → List PacketLogEntry → App
unfolding push_packet
push_all app [] = app
push_all app (entry ∷ entries) = push_all (push_packet app entry) entries

abbrev pub AreNewer : ℕ → List PacketLogEntry → Type 0
AreNewer id = All λ e. id < e.id

count_newer-append :
    (newest : PacketLogEntry) (recent older : List PacketLogEntry)
    → AreNewer newest.id recent
    → count_newer newest.id (recent ++ newest ∷ older) ≡ length recent
count_newer-append newest [] older h = ground arith
count_newer-append newest (e ∷ recent) older h =
    ground (arith, h.0, count_newer-append newest recent older h.1)

module _ (newest : PacketLogEntry) (older : List PacketLogEntry) where
  IsLocked : App → List PacketLogEntry → Type 0
  IsLocked app recent =
      (app.locked_view ≡ some (newest ∷ older))
      × (app.packets ≡ recent ++ newest ∷ older)
      × AreNewer newest.id recent

  push_packet-IsLocked :
      (app : App) (recent : List PacketLogEntry) (e : PacketLogEntry)
      → IsLocked app recent
      → newest.id < e.id
      → length recent + length (newest ∷ older) < max_packets
      → IsLocked (push_packet app e) (e ∷ recent)
  unfolding push_packet IsLocked
  push_packet-IsLocked app recent e l n h = (
    l.0,
    ap (λ ps. take max_packets (e ∷ ps)) l.1
        ∙ take-eq_self max_packets (e ∷ recent ++ newest ∷ older)
            (omega (arith, h, length-append recent (newest ∷ older))),
    (n, l.2),
  )

  push_all-counts :
      (app : App) (recent entries : List PacketLogEntry)
      → IsLocked app recent
      → AreNewer newest.id entries
      → length recent + length (newest ∷ older) + length entries ≤ max_packets
      → (new_packets_since_lock (push_all app entries) ≡ length recent + length entries)
        × (visible_packets (push_all app entries) ≡ newest ∷ older)
  unfolding push_all new_packets_since_lock visible_packets IsLocked
  push_all-counts app recent [] l n h =
      (rw (l.0, l.1) (count_newer-append newest recent older l.2 ∙ omega arith), rw (l.0) refl)
  push_all-counts app recent (e ∷ entries) l n h =
      let rest =
        push_all-counts (push_packet app e) (e ∷ recent) entries
          (push_packet-IsLocked app recent e l n.0 (omega (arith, h))) n.1 (omega (arith, h)) in
      (rest.0 ∙ omega arith, rest.1)

  -- From the moment that the scroll is locked, with a packet in the list, the page shows the same
  -- packets whatever arrives, and the number of new packets that it shows is that of the packets
  -- that arrived, when their ids are above the newest one's and the client's list is not full.
  pub scroll_lock_counts :
      (app : App) (entries : List PacketLogEntry)
      → app.locked_view ≡ none
      → app.packets ≡ newest ∷ older
      → AreNewer newest.id entries
      → length app.packets + length entries ≤ max_packets
      → (new_packets_since_lock (push_all (toggle_scroll_lock app) entries) ≡ length entries)
        × (visible_packets (push_all (toggle_scroll_lock app) entries) ≡ app.packets)
  unfolding toggle_scroll_lock IsLocked
  scroll_lock_counts app entries u same n h =
      let run =
        push_all-counts (toggle_scroll_lock app) [] entries (rw (u) (ap some same), same, tt) n
          (omega (arith, h, ap length same)) in
      (run.0 ∙ omega arith, run.1 ∙ sym same)
