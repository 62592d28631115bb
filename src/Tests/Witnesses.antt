-- ===== src/Tests/Witnesses.antt =====
-- The theorems about src/pg_amqp.c at inputs that meet their hypotheses.
use pg_amqp.Base.{◌≡◌, ◌⊎◌, ◌≤◌, ◌<◌, List, refl, false, none, some, [], ◌∷◌, arith, All}
use pg_amqp.Readings.{lost, commits}
use pg_amqp.Broker.{Ctx, emit, Host, defaults, new_state}
use pg_amqp.Connection.{drain_frame, drain_returns}
use pg_amqp.Connection.Drain.{Drained, drain_returns-Drained}
use pg_amqp.Hosts.{load_hosts}
use pg_amqp.Hosts.Cache.{Describe, load_hosts-caches}
use pg_amqp.Connect.{get_bs, reconnect}
use pg_amqp.Events.{time}
use pg_amqp.Connect.Wait.{get_bs-backoff}
use pg_amqp.Connect.Round.{Reached}
use pg_amqp.Connect.Outcome.{Ends, get_bs-Ends}
use pg_amqp.Publish.{too_large, publish_opt, declare_exchange}
use pg_amqp.Publish.Accounting.{Published, publish_opt-Published}
use pg_amqp.Publish.Reset.{Declared, declare_exchange-Declared}
use pg_amqp.Xact.{commit, abort, commit_one, abort_one, abort_sub, refuse_prepare}
use pg_amqp.Xact.Accounting.{
  Committed, commit_one-Committed, RolledBack, abort_one-RolledBack, commit_one-abort_sub,
}
use pg_amqp.Xact.Prepare.{Refusal, refuse_prepare-Refusal}
use pg_amqp.Xact.SilentLoss.{declare_exchange-loses, autonomous_publish-loses}
use pg_amqp.Session.{Session, phase2, run, start, publish, xact, exit}
use pg_amqp.Session.Brokers.{Sound}
use pg_amqp.Session.Invariant.{run-Sound}
use pg_amqp.Session.Settled.{IsIdle, phase2-IsIdle, phase2-abort_commits}
use pg_amqp.Timeouts.{AllTimed}
use pg_amqp.Timeouts.Backend.{run-AllTimed}
use pg_amqp.Tests.Fixtures.{
  fine, refusing, closing, busy, busy-IsWf, idle, idle-IsWf, hello, declaration, a_row,
}

abbrev busy_session : Session
busy_session = record { brokers = busy.bs ∷ []; trace = [] }

-- A broker whose last connect failed at 99, a second ago.
abbrev waiting : Ctx
waiting = record idle {
  bs = record (new_state 1) { consecutive_failures = 1; last_failed_connect = 99 };
}

publish_opt-Published_example :
    let (b, c') = publish_opt fine defaults 2 hello busy in Published 1 2 2 b busy c'
publish_opt-Published_example = publish_opt-Published 1 2 fine defaults hello busy busy-IsWf

commit_one-Committed_example : Committed refusing defaults busy (commit_one refusing defaults busy)
commit_one-Committed_example = commit_one-Committed refusing defaults busy busy-IsWf

run-Sound_example :
    Sound (run fine defaults (publish (some 1) hello ∷ xact commit ∷ exit ∷ []) start)
run-Sound_example = run-Sound fine defaults (publish (some 1) hello ∷ xact commit ∷ exit ∷ [])

run-AllTimed_example :
    AllTimed defaults (run fine defaults (publish (some 1) hello ∷ xact commit ∷ []) start).trace
run-AllTimed_example = run-AllTimed fine defaults (publish (some 1) hello ∷ xact commit ∷ [])

commit_one-abort_sub_example :
    let c' = commit_one fine defaults (abort_sub busy) in
    (commits c'.trace ≡ 0) × (lost 1 c'.trace ≡ 2) × (c'.bs.conn ≡ none) × (c'.bs.uncommitted ≡ 0)
commit_one-abort_sub_example = commit_one-abort_sub fine defaults busy busy-IsWf (omega arith)

declare_exchange-loses_example :
    let (r, c') = declare_exchange refusing defaults declaration busy in
    (r ≡ false)
    × (c'.bs.uncommitted ≡ 0)
    × (lost 1 c'.trace ≡ 0)
    × (commits c'.trace ≡ 0)
    × (commit_one refusing defaults c' ≡ c')
declare_exchange-loses_example =
    declare_exchange-loses refusing defaults declaration 7 busy refl refl refl

autonomous_publish-loses_example :
    let (_, c') = publish_opt closing defaults 1 hello busy in
    (c'.bs.uncommitted ≡ 0) × (lost 1 c'.trace ≡ 0) × (commits c'.trace ≡ 0)
unfolding too_large drain_returns drain_frame
autonomous_publish-loses_example =
    autonomous_publish-loses closing defaults hello 7 busy refl busy-IsWf refl refl

drain_returns-Drained_example :
    let p = closing.pending 7 [] in
    let (r, c') = drain_returns closing busy in Drained p.frames p.ending busy r c'
drain_returns-Drained_example = drain_returns-Drained closing 7 busy refl

get_bs-Ends_example :
    let c' = get_bs fine defaults idle in
    Reached 1 2 idle c' × (((0 < 0) × (c'.bs ≡ idle.bs)) ⊎ Ends 1 2 fine defaults idle c')
get_bs-Ends_example = get_bs-Ends 1 2 fine defaults idle refl idle-IsWf

phase2-IsIdle_example : All IsIdle (phase2 fine defaults commit busy_session).1.brokers
phase2-IsIdle_example = phase2-IsIdle fine defaults commit busy_session tt (busy-IsWf, tt)

phase2-abort_commits_example : commits (phase2 fine defaults abort busy_session).1.trace ≡ 0
phase2-abort_commits_example = phase2-abort_commits fine defaults busy_session (busy-IsWf, tt)

refuse_prepare-Refusal_example :
    Refusal (idle.bs ∷ busy.bs ∷ []) (refuse_prepare (idle.bs ∷ busy.bs ∷ []))
refuse_prepare-Refusal_example = refuse_prepare-Refusal (idle.bs ∷ busy.bs ∷ [])

declare_exchange-Declared_example :
    let (b, c') = declare_exchange fine defaults declaration busy in Declared 1 2 b busy c'
declare_exchange-Declared_example =
    declare_exchange-Declared 1 2 fine defaults declaration busy busy-IsWf

abort_one-RolledBack_example : RolledBack fine defaults busy (abort_one fine defaults busy)
abort_one-RolledBack_example = abort_one-RolledBack fine defaults busy busy-IsWf

get_bs-backoff_example :
    ((100 < 105) × (get_bs fine defaults waiting ≡ emit (time 100) waiting))
    ⊎ ((105 ≤ 100)
        × (get_bs fine defaults waiting ≡ reconnect fine defaults (emit (time 100) waiting)))
get_bs-backoff_example = get_bs-backoff fine defaults waiting refl (omega arith)

load_hosts-caches_example :
    let (n, c') = load_hosts fine idle in
    (hs : List Host) × (n ≡ some 1)
    × (c'.bs.hosts ≡ some hs)
    × Describe (a_row ∷ []) hs
    × (c'.bs.nhosts ≡ 1)
    × (c'.bs.idx ≡ 0)
load_hosts-caches_example = load_hosts-caches fine idle a_row [] refl refl refl
