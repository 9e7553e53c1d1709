-- ===== src/Daemon/Server/Protocol.antt =====
-- The order of what a client is sent.
use fez_meshcore_controller.Prelude.{
  Bool, List, Option, Text, [], ap, arith, false, none, refl, some, suc, sym, true, zero, ℕ, ◌++◌,
  ◌-◌, ◌∙◌, ◌∷◌, ◌≡◌, ◌≤◌,
}
use mathlib.Core.List.{append_assoc}
use mathlib.Core.Path.{subst}
use fez_meshcore_controller.Core.Mesh.{TelemetryDto}
use fez_meshcore_controller.Core.Mesh.Detail.{Outcome, ok, err}
use fez_meshcore_controller.Core.Ipc.{ClientMessage, ServerMessage, protocol_version}
use fez_meshcore_controller.Daemon.Command.{DaemonCommand}
use fez_meshcore_controller.Daemon.MeshTask.Node.{and_then}
use fez_meshcore_controller.Daemon.Server.{
  Connection, Answer, replied, not_running, dropped, timed_out, Receipts, category, end_of_updates,
  deadline, room_left, send, current_snapshot, greet, issue, dispatch_command, report,
  report_telemetry, forward, dispatch_repeater_detail, Answers, handle_message, Incoming, event,
  entry, lagged, closed, message, invalid_line, read_error, end_of_lines, serve, serve_next,
  serve_all, handle_client,
}

-- What was sent before is kept, behind what is sent after it.
abbrev pub Extends : List ServerMessage → List ServerMessage → Type 0
Extends before after = (more : List ServerMessage) × (after ≡ more ++ before)

Extends-trans : (a b c : List ServerMessage) → Extends a b → Extends b c → Extends a c
Extends-trans a b c (l, e) (k, f) = (k ++ l, f ∙ ap (λ x. k ++ x) e ∙ sym (append_assoc k l a))

room_left-Extends :
    (room : ℕ) (m : ServerMessage) (c : Connection) → Extends c.sent (room_left room m c).1.sent
room_left-Extends zero m c = ([], refl)
room_left-Extends (suc room) m c = (m ∷ [], refl)

send-Extends : (m : ServerMessage) (c : Connection) → Extends c.sent (send m c).1.sent
unfolding send
send-Extends m c = room_left-Extends c.room m c

issue-sent :
    {A : Type 0} (cmd : DaemonCommand) (a : Answer A) (c : Connection)
    → (issue cmd a c).sent ≡ c.sent
issue-sent cmd not_running c = refl
issue-sent cmd (replied r) c = refl
issue-sent cmd dropped c = refl
issue-sent cmd timed_out c = refl

report-Extends : (r : Outcome (Unit {0})) (c : Connection) → Extends c.sent (report r c).1.sent
unfolding report
report-Extends (ok u) c = ([], refl)
report-Extends (err reason) c = send-Extends _ c

report_telemetry-Extends :
    (prefix : Text) (r : Outcome TelemetryDto) (c : Connection)
    → Extends c.sent (report_telemetry prefix r c).1.sent
unfolding report_telemetry
report_telemetry-Extends prefix (ok dto) c = send-Extends _ c
report_telemetry-Extends prefix (err reason) c = send-Extends _ c

-- What goes on after a result extends what was sent, when each continuation does.
and_then-Extends :
    {A B : Type 0} (r : Outcome A) (f : A → Connection → Outcome B × Connection) (c : Connection)
    (before : List ServerMessage)
    → Extends before c.sent
    → ((a : A) (c' : Connection) → Extends c'.sent (f a c').1.sent)
    → Extends before (and_then r f c).1.sent
and_then-Extends (ok a) f c before h k = Extends-trans before c.sent _ h (k a c)
and_then-Extends (err reason) f c before h k = h

forward-Extends :
    (prefix : Text) (r : Receipts) (c : Connection) → Extends c.sent (forward prefix r c).1.sent
unfolding forward
forward-Extends prefix (category k rest) c =
    and_then-Extends _ (λ u. forward prefix rest) _ c.sent (send-Extends _ c)
      (λ u c'. forward-Extends prefix rest c')
forward-Extends prefix end_of_updates c = ([], refl)
forward-Extends prefix deadline c = send-Extends _ c

detail-Extends :
    (prefix : Text) (r : Option Receipts) (c : Connection)
    → Extends c.sent (dispatch_repeater_detail prefix r c).1.sent
unfolding dispatch_repeater_detail
detail-Extends prefix none c = send-Extends _ c
detail-Extends prefix (some r) c = forward-Extends prefix r _

-- A command's report, after it was put into the channel.
issued-Extends :
    {A : Type 0} (cmd : DaemonCommand) (a : Answer A) (c : Connection) (after : List ServerMessage)
    → Extends (issue cmd a c).sent after
    → Extends c.sent after
issued-Extends cmd a c after (l, e) = (l, e ∙ ap (λ x. l ++ x) (issue-sent cmd a c))

handle-Extends :
    (m : ClientMessage) (answers : Answers) (c : Connection)
    → Extends c.sent (handle_message m answers c).1.sent
unfolding handle_message dispatch_command
handle-Extends ClientMessage.request_snapshot answers c = send-Extends _ c
handle-Extends (ClientMessage.remove_contact prefix) answers c =
    issued-Extends (DaemonCommand.remove_contact prefix) answers.command c _ (report-Extends _ _)
handle-Extends (ClientMessage.set_repeater_status prefix name status) answers c =
    issued-Extends (DaemonCommand.set_repeater_status prefix name status) answers.command c _
      (report-Extends _ _)
handle-Extends (ClientMessage.add_repeater key name is_managed) answers c =
    issued-Extends (DaemonCommand.add_repeater key name is_managed) answers.command c _
      (report-Extends _ _)
handle-Extends (ClientMessage.request_telemetry prefix) answers c =
    issued-Extends (DaemonCommand.request_telemetry prefix) answers.telemetry c _
      (report_telemetry-Extends prefix _ _)
handle-Extends (ClientMessage.request_repeater_detail prefix) answers c =
    detail-Extends prefix answers.detail c

serve-Extends : (i : Incoming) (c : Connection) → Extends c.sent (serve i c).1.sent
unfolding serve
serve-Extends (event e) c =
    and_then-Extends _ (λ u c'. (ok true, c')) _ c.sent (send-Extends _ c) (λ u c'. ([], refl))
serve-Extends (entry e) c =
    and_then-Extends _ (λ u c'. (ok true, c')) _ c.sent (send-Extends _ c) (λ u c'. ([], refl))
serve-Extends lagged c = ([], refl)
serve-Extends closed c = ([], refl)
serve-Extends (message m answers) c =
    and_then-Extends _ (λ u c'. (ok true, c')) _ c.sent (handle-Extends m answers c)
      (λ u c'. ([], refl))
serve-Extends invalid_line c = ([], refl)
serve-Extends read_error c = ([], refl)
serve-Extends end_of_lines c = ([], refl)

serve_next-Extends :
    (r : Outcome Bool) (later : List Incoming) (c : Connection) (before : List ServerMessage)
    → Extends before c.sent
    → ((c' : Connection) → Extends c'.sent (serve_all later c').1.sent)
    → Extends before (serve_next r (serve_all later) c).1.sent
unfolding serve_next
serve_next-Extends (ok true) later c before h k = Extends-trans before c.sent _ h (k c)
serve_next-Extends (ok false) later c before h k = h
serve_next-Extends (err reason) later c before h k = h

serve_all-Extends :
    (incoming : List Incoming) (c : Connection) → Extends c.sent (serve_all incoming c).1.sent
unfolding serve_all
serve_all-Extends [] c = ([], refl)
serve_all-Extends (i ∷ later) c =
    serve_next-Extends _ later _ c.sent (serve-Extends i c) (λ c'. serve_all-Extends later c')

-- The greeting, the latest in front.
abbrev pub greeting : Connection → List ServerMessage
greeting c =
    ServerMessage.packet_log c.state.packet_log
    ∷ ServerMessage.snapshot_message (current_snapshot c)
    ∷ ServerMessage.hello protocol_version
    ∷ []

-- Whatever a client, the mesh task and the broadcasts do, the first three messages that a client is
-- sent are the protocol's version, the snapshot and the packet log as they are when it connects,
-- in this order, when three messages can be sent; later ones follow them.
pub handle_client-Extends :
    (incoming : List Incoming) (c : Connection)
    → 3 ≤ c.room
    → c.sent ≡ []
    → Extends (greeting c) (handle_client incoming c).1.sent
unfolding handle_client greet send
handle_client-Extends incoming c h e =
    let room = c.room - 3 in
    let counted : c.room ≡ suc (suc (suc room)) = omega (arith, h) in
    subst (λ k. Extends (greeting c) (handle_client incoming k).1.sent)
      (sym (
        ap (λ r. record c { room = r }) counted
        ∙ ap (λ l. record c { room = suc (suc (suc room)); sent = l }) e))
      (serve_all-Extends incoming (record c { room = room; sent = greeting c }))
