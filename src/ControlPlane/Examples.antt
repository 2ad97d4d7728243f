-- ===== src/ControlPlane/Examples.antt =====
-- The theorems about the control plane at concrete sessions, and tests.
use opendeploy.Common.{ℕ, ◌≡◌, refl, true, false, none, some, [], ◌∷◌, String, arith, ok, err, All}
use opendeploy.Common.Text.{codes, text_eq, has_prefix}
use opendeploy.Common.Keyed.{lookup, insert, remove}
use opendeploy.ControlPlane.Capabilities.{
  required_for_command, is_published, required_for_command-is_published,
}
use opendeploy.ControlPlane.Model.{
  connection_closed, capability_absent, unsupported_protocol, AgentHello, CommandResult, result,
  Session, World, open_session, install, file_session, close_previous, close, offer, register,
  unregister, resolve,
}
use opendeploy.ControlPlane.Model.{store, unregister_entry}
use opendeploy.ControlPlane.Commands.{route, file_waiter, attach_stream, require_command_capability}
use opendeploy.ControlPlane.Online.{Spares, Spared, stays_online}
use opendeploy.ControlPlane.Waiters.{is_filled, close_wakes}
use opendeploy.ControlPlane.Registry.{IsValid}
use opendeploy.ControlPlane.Reconnect.{reconnect_survives}
use opendeploy.ControlPlane.Steps.{
  Threads, IsSafe, here, next_step, registered, routed, unregistered, closed_one, Reach-IsValid,
}

abbrev hello : AgentHello
hello = record {
  server_id = "web1";
  hello_protocol = 1;
  hello_api = "v1";
  hello_agent = "0.1.28";
  hello_capabilities = "cron" ∷ "files" ∷ [];
}

abbrev blank : Session
blank = record {
  id = "";
  owner = "";
  session_api = "";
  session_agent = "";
  capabilities = [];
  connected_at = 0;
  last_seen = 0;
  send = [];
  done = true;
  pending = [];
  streams = [];
}

abbrev empty : World
empty = record { sessions = λ k. none; heap = λ p. blank; next = 0; waiters = λ c. none }

empty-IsValid : IsValid empty
empty-IsValid = record {
  allocated = λ k p h. cc;
  owned = λ k p h. cc;
  is_open = λ k p h. cc;
  drained = λ p h. refl;
}

abbrev one : World
one = install (open_session hello "c1" 5) empty

abbrev two : World
two = install (open_session hello "c2" 9) one

first_connect : register hello "c1" 5 empty ≡ ok (0, one)
unfolding register
first_connect = refl

second_connect : register hello "c2" 9 one ≡ ok (1, two)
unfolding register install file_session close_previous open_session
second_connect = refl

wrong_protocol :
    register (record hello { hello_protocol = 2 }) "c1" 5 empty ≡ err (unsupported_protocol 2)
unfolding register
wrong_protocol = refl

abbrev start : Threads
start = record { world = empty; found = λ p. false; ending = λ p. false }

start-IsSafe : IsSafe start
start-IsSafe = record { valid = empty-IsValid; old = λ p h. cc; gone = λ p h k. cc }

one-IsValid : IsValid one
one-IsValid = Reach-IsValid (next_step here (registered hello "c1" 5 first_connect)) start-IsSafe

route_cron : route "web1" (codes "cron.list") one ≡ ok 0
unfolding route require_command_capability install file_session close_previous open_session
    required_for_command text_eq has_prefix
route_cron = refl

two-IsValid : IsValid two
two-IsValid =
    Reach-IsValid
      (next_step (next_step here (registered hello "c1" 5 first_connect))
        (registered hello "c2" 9 second_connect))
      start-IsSafe

-- a Subscribe finds the first session, which is replaced and unregistered before it attaches
abbrev late_subscribe : Threads
late_subscribe = record {
  world = close 0 connection_closed (unregister_entry 0 two);
  found = store (λ p. false) 0 true;
  ending = store (λ p. false) 0 true;
}

late_subscribe_refused : attach_stream 0 "s1" 3 late_subscribe.world ≡ err connection_closed
unfolding attach_stream close unregister_entry install file_session close_previous open_session
late_subscribe_refused = refl

Reach-IsValid_example : IsValid late_subscribe.world
Reach-IsValid_example =
    Reach-IsValid {s = start} {t = late_subscribe}
      (next_step
        (next_step
          (next_step
            (next_step (next_step here (registered hello "c1" 5 first_connect))
              (routed "web1" (codes "cron.list") 0 route_cron))
            (registered hello "c2" 9 second_connect))
          (unregistered 0 (unfold install file_session close_previous in omega arith)))
        (closed_one 0 refl))
      start-IsSafe

reconnect_survives_example : (unregister 0 two).sessions "web1" ≡ some 1
reconnect_survives_example =
    reconnect_survives hello "c2" 9 one 0 one-IsValid
      (unfold install file_session close_previous in omega arith) second_connect

-- the world after the entry of a Dispatch of `cron.list`, with id `d1` and waiter 7
abbrev sent : World
sent = record one {
  heap = store one.heap 0 (record (one.heap 0) { pending = insert "d1" 7 (one.heap 0).pending });
  waiters = store one.waiters 7 none;
}

sent_cron : file_waiter 0 "d1" 7 one ≡ sent
unfolding file_waiter install file_session close_previous open_session
sent_cron = refl

route_firewall : route "web1" (codes "firewall.add") one ≡ err capability_absent
unfolding route require_command_capability install file_session close_previous open_session
    required_for_command text_eq has_prefix
route_firewall = refl

close_wakes_example :
    All
      (λ (entry : String × ℕ). is_filled ((close 0 connection_closed sent).waiters entry.1) ≡ true)
      (sent.heap 0).pending
close_wakes_example =
    close_wakes 0 connection_closed sent
      (unfold install file_session close_previous open_session in refl)

abbrev reply : CommandResult
reply = record { command_id = "d1"; success = true; payload = codes "[]"; error_text = "" }

abbrev late : CommandResult
late = record { command_id = "d1"; success = false; payload = []; error_text = "late" }

reply_kept : (resolve 0 reply sent).waiters 7 ≡ some (result reply)
unfolding resolve offer insert remove lookup install file_session close_previous open_session
reply_kept = refl

required_for_command-is_published_example :
    is_published (required_for_command (codes "nginx.site.apply")) ≡ true
required_for_command-is_published_example =
    required_for_command-is_published (codes "nginx.site.apply")

-- the second session of a server, after the Subscribe has found the first one
abbrev reconnected : Threads
reconnected = record { world = two; found = store (λ p. false) 0 true; ending = λ p. false }

reconnected-IsSafe : IsSafe reconnected
reconnected-IsSafe = record { valid = two-IsValid; old = λ p h. cc; gone = λ p h k. cc }

stays_online_example :
    (late_subscribe.world.sessions "web1" ≡ some 1) × ((late_subscribe.world.heap 1).done ≡ false)
unfolding Spares
stays_online_example =
    stays_online "web1" 1 {s = reconnected} {t = late_subscribe}
      (Spared.next_step
        (Spared.next_step Spared.here
          (unregistered 0 (unfold install file_session close_previous in omega arith))
          (omega arith))
        (closed_one 0 refl) tt)
      reconnected-IsSafe (unfold install file_session close_previous close open_session in refl)
