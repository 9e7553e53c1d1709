-- ===== src/Daemon/Reload/Brokers.antt =====
-- The worker tasks of the MQTT brokers across a reload (`reload_once` in daemon/src/reload.rs).
use fez_meshcore_controller.Prelude.{
  All, Bool, Bool-cases, List, Member, Option, Option-cases, Text, [], any, arith, eqb, eqb_iff,
  false, if◌then◌else◌, inl, inr, is_some, none, not, refl, some, text_eq, text_eq_iff, true, ◌++◌,
  ◌↔◌, ◌∷◌, ◌≡◌, ◌⊎◌,
}
use fez_meshcore_controller.Prelude.Map.{lookup, insert, remove, lookup-insert, lookup-remove}
use fez_meshcore_controller.Prelude.Int.{ℤ}
use fez_meshcore_controller.Core.Mesh.Detail.{ok}
use fez_meshcore_controller.Core.Config.{Config, MqttBrokerConfig, MqttBrokerConfig-discrete}
use fez_meshcore_controller.Daemon.State.{AppState, broadcast_event}
use fez_meshcore_controller.Daemon.Reload.{
  find_broker, added_and_changed, removed_names, stop_brokers, start_brokers, reload_once,
  diff_config, resync,
}

abbrev named : Text → List MqttBrokerConfig → Bool
named name bs = any (λ b. text_eq b.name name) bs

-- Each broker of the list is the one that its name finds in `new`.
abbrev pub AreFound : List MqttBrokerConfig → List MqttBrokerConfig → Type 0
AreFound new bs = All (λ b. find_broker b.name new ≡ some b) bs

abbrev pub HasUniqueNames : List MqttBrokerConfig → Type 0
HasUniqueNames bs = AreFound bs bs

-- Whether the broker of a name has to be started, from its old and its new configuration.
abbrev differs : Option MqttBrokerConfig → Option MqttBrokerConfig → Bool
differs old none = false
differs none (some b) = true
differs (some a) (some b) = not (eqb MqttBrokerConfig-discrete a b)

same_unless_differs :
    (old new : Option MqttBrokerConfig) → is_some new ≡ true → differs old new ≡ false → old ≡ new
same_unless_differs old none h d = cc
same_unless_differs none (some b) h d = cc
same_unless_differs (some a) (some b) h d = ground (arith, eqb_iff MqttBrokerConfig-discrete a b)

lookup-stop_brokers :
    (name : Text) (s : AppState) (names : List Text)
    → lookup name (stop_brokers s names).mqtt_broker_tasks
      ≡ (if any (λ n. text_eq n name) names then none else lookup name s.mqtt_broker_tasks)
unfolding stop_brokers
lookup-stop_brokers name s [] = refl
lookup-stop_brokers name s (n ∷ names) =
    let stopped = record s {
      mqtt_broker_tasks = remove n s.mqtt_broker_tasks;
      mqtt_broker_status = remove n s.mqtt_broker_status;
    } in
    ground (arith, lookup-stop_brokers name stopped names, lookup-remove n name s.mqtt_broker_tasks)

lookup-start_brokers :
    (name : Text) (new : List MqttBrokerConfig) (s : AppState) (bs : List MqttBrokerConfig)
    → AreFound new bs
    → lookup name (start_brokers s bs).mqtt_broker_tasks
      ≡ (if named name bs then find_broker name new else lookup name s.mqtt_broker_tasks)
unfolding start_brokers
lookup-start_brokers name new s [] h = refl
lookup-start_brokers name new s (b ∷ bs) h =
    let started = record s {
      mqtt_broker_tasks = insert b.name b (remove b.name s.mqtt_broker_tasks);
    } in
    ground (
      arith,
      lookup-start_brokers name new started bs h.1,
      lookup-insert b.name name b (remove b.name s.mqtt_broker_tasks),
      lookup-remove b.name name s.mqtt_broker_tasks,
      text_eq_iff b.name name,
      h.0,
    )

named-append :
    (name : Text) (xs ys : List MqttBrokerConfig)
    → named name (xs ++ ys) ≡ (if named name xs then true else named name ys)
named-append name [] ys = refl
named-append name (x ∷ xs) ys = ground (arith, named-append name xs ys)

named-find_broker :
    (name : Text) (bs : List MqttBrokerConfig) → named name bs ≡ is_some (find_broker name bs)
unfolding find_broker
named-find_broker name [] = refl
named-find_broker name (b ∷ bs) = ground (arith, named-find_broker name bs)

-- What the reload starts under a name: the new broker, if it differs from the old one.
named-added_and_changed :
    (name : Text) (old new bs : List MqttBrokerConfig)
    → AreFound new bs
    → (if named name (added_and_changed old bs).1
        then true
        else named name (added_and_changed old bs).0)
      ≡ (if named name bs then differs (find_broker name old) (find_broker name new) else false)
unfolding added_and_changed
named-added_and_changed name old new [] h = refl
named-added_and_changed name old new (b ∷ bs) h =
    let rest = named-added_and_changed name old new bs h.1 in
    ground (arith, rest, text_eq_iff b.name name, h.0)

named-removed_names :
    (name : Text) (old new : List MqttBrokerConfig)
    → any (λ n. text_eq n name) (removed_names old new)
      ≡ (if is_some (find_broker name old) then not (is_some (find_broker name new)) else false)
unfolding removed_names find_broker
named-removed_names name [] new = refl
named-removed_names name (b ∷ old) new =
    ground (
      arith,
      named-removed_names name old new,
      text_eq_iff b.name name,
      named-find_broker b.name new,
    )

AreFound-append :
    (new xs ys : List MqttBrokerConfig)
    → AreFound new xs
    → AreFound new ys
    → AreFound new (xs ++ ys)
AreFound-append new [] ys f g = g
AreFound-append new (x ∷ xs) ys f g = (f.0, AreFound-append new xs ys f.1 g)

AreFound-added_and_changed :
    (old new bs : List MqttBrokerConfig)
    → AreFound new bs
    → AreFound new (added_and_changed old bs).0 × AreFound new (added_and_changed old bs).1
unfolding added_and_changed
AreFound-added_and_changed old new [] f = (tt, tt)
AreFound-added_and_changed old new (b ∷ bs) f =
    let rest = AreFound-added_and_changed old new bs f.1 in
    elim (Option-cases (find_broker b.name old)) [
      | inl none_old ↦ rw (added_and_changed, none_old) ((f.0, rest.0), rest.1)
      | inr (a, some_old) ↦ elim (Bool-cases (eqb MqttBrokerConfig-discrete a b)) [
        | inl same ↦ rw (added_and_changed, some_old, same) rest
        | inr other ↦ rw (added_and_changed, some_old, other) (rest.0, (f.0, rest.1))
      ]
    ]

-- A reload starts a broker of the new configuration just if the old one did not have it as it is:
-- the worker of an unchanged broker is left alone.
pub mem-started :
    (old new : List MqttBrokerConfig) (b : MqttBrokerConfig)
    → let started = added_and_changed old new in
      (Member b started.1 ⊎ Member b started.0)
      ↔ (Member b new × ¬ (find_broker b.name old ≡ some b))
unfolding added_and_changed
mem-started old [] b = (λ m. elim m [ inl e ↦ absurd e | inr e ↦ absurd e ], λ m. absurd m.0)
mem-started old (x ∷ new) b =
    let rest = mem-started old new b in
    elim (Option-cases (find_broker x.name old)) [
      | inl none_old ↦ ground (arith, rest, none_old)
      | inr (a, some_old) ↦ ground (arith, rest, some_old, eqb_iff MqttBrokerConfig-discrete a x)
    ]

-- The task table agrees with the brokers of a configuration.
abbrev pub RunsBrokers : AppState → List MqttBrokerConfig → Type 0
RunsBrokers s bs = (name : Text) → lookup name s.mqtt_broker_tasks ≡ find_broker name bs

-- After a reload whose new configuration gives no name to two brokers, the daemon runs exactly the
-- brokers of the new configuration, each with its new settings, if it ran those of the old one.
pub reload_once-RunsBrokers :
    (s : AppState) (new : Config) (now_unix : ℤ)
    → RunsBrokers s s.config.mqtt_brokers
    → HasUniqueNames new.mqtt_brokers
    → RunsBrokers (reload_once s (ok new) now_unix) new.mqtt_brokers
unfolding reload_once diff_config resync broadcast_event
reload_once-RunsBrokers s new now_unix runs unique name =
    let old_brokers = s.config.mqtt_brokers in
    let new_brokers = new.mqtt_brokers in
    let both = added_and_changed old_brokers new_brokers in
    let swapped = record s { config = new } in
    let removed = removed_names old_brokers new_brokers in
    let stopped = stop_brokers swapped removed in
    let found = AreFound-added_and_changed old_brokers new_brokers new_brokers unique in
    ground (
      arith,
      lookup-start_brokers name new_brokers stopped (both.1 ++ both.0)
          (AreFound-append new_brokers both.1 both.0 found.1 found.0),
      lookup-stop_brokers name swapped removed,
      named-append name both.1 both.0,
      named-added_and_changed name old_brokers new_brokers new_brokers unique,
      named-removed_names name old_brokers new_brokers,
      named-find_broker name new_brokers,
      runs name,
      same_unless_differs (find_broker name old_brokers) (find_broker name new_brokers),
    )
