-- ===== src/Server/Accept/Limit.antt =====
-- The limit of connections, and the end of the daemon.
use ohmcp.Base.{
  ◌∙◌, ap, sym, refl, false, inr, inl, Bool-cases, if◌then◌else◌, ◌==◌, leb, ltb, arith, List, true,
  ◌≡◌, ◌<◌, ◌≤◌, ◌-◌, ◌+◌, ℕ, [], ◌∷◌, zero, suc,
}
use ohmcp.Server.Accept.{
  in_phase, daemon_at_start, Happening, Daemon, happens, Phase, run_with, ServerConfig, listening,
  draining, stopped, aborted, connects, accept_fails, session_ends, shuts_down, grace_over,
}

-- Each permit is free or held by a session that runs.
abbrev Limited : ServerConfig → Daemon → Type 0
Limited config d = d.permits + d.running ≡ config.max_connections

in_phase-Limited :
    (config : ServerConfig) (p : Phase) (e : Happening) (d : Daemon)
    → Limited config d
    → Limited config (in_phase p e d)
in_phase-Limited config listening connects d h = ground arith
in_phase-Limited config listening accept_fails d h = omega arith
in_phase-Limited config listening session_ends d h = ground arith
in_phase-Limited config listening shuts_down d h = h
in_phase-Limited config listening grace_over d h = h
in_phase-Limited config draining connects d h = h
in_phase-Limited config draining accept_fails d h = h
in_phase-Limited config draining session_ends d h = ground arith
in_phase-Limited config draining shuts_down d h = h
in_phase-Limited config draining grace_over d h = omega arith
in_phase-Limited config (stopped b) e d h = h
in_phase-Limited config aborted e d h = h

run_with-Limited :
    (config : ServerConfig) (es : List Happening) (d : Daemon)
    → Limited config d
    → Limited config (run_with es d)
unfolding run_with happens
run_with-Limited config [] d h = h
run_with-Limited config (e ∷ es) d h =
    run_with-Limited config es (happens e d) (in_phase-Limited config d.phase e d h)

-- What a new connection makes of the daemon: a session if fewer run than the limit, else a
-- rejection. Only a daemon that listens is connected to.
abbrev pub connected : ServerConfig → Phase → Daemon → Daemon
connected config listening d =
    if ltb d.running config.max_connections
    then record d { permits = d.permits - 1; running = suc d.running }
    else record d { rejected = suc d.rejected }
connected config draining d = d
connected config (stopped b) d = d
connected config aborted d = d

connects_decided :
    (config : ServerConfig) (p : Phase) (d : Daemon)
    → Limited config d
    → in_phase p connects d ≡ connected config p d
connects_decided config listening d h = elim (Bool-cases (d.permits == 0)) [
  | inl e ↦
      let full : ltb d.running config.max_connections ≡ false = ground arith in rw (e, full) refl
  | inr e ↦
      let room : ltb d.running config.max_connections ≡ true = ground arith in rw (e, room) refl
]
connects_decided config draining d h = refl
connects_decided config (stopped b) d h = refl
connects_decided config aborted d h = refl

-- So many sessions end, and then the grace is over.
abbrev pub last_events : ℕ → List Happening
last_events zero = grace_over ∷ []
last_events (suc m) = session_ends ∷ last_events m

stays_stopped :
    (m : ℕ) (d : Daemon)
    → d.phase ≡ stopped true
    → (run_with (last_events m) d).phase ≡ stopped true
unfolding run_with happens
stays_stopped zero d p = rw p refl
stays_stopped (suc m) d p = stays_stopped m (happens session_ends d) (rw p refl)

-- The end of a session that is not the last one, and of the last one.
ends_one :
    (d : Daemon)
    → d.phase ≡ draining
    → 1 < d.running
    → ((happens session_ends d).phase ≡ draining)
      × ((happens session_ends d).running ≡ d.running - 1)
unfolding happens
ends_one d p r = rw p (ground arith)

ends_last :
    (d : Daemon)
    → d.phase ≡ draining
    → d.running ≡ 1
    → (happens session_ends d).phase ≡ stopped true
unfolding happens
ends_last d p r = rw (p, r) refl

drain :
    (m : ℕ) (d : Daemon)
    → d.phase ≡ draining
    → 0 < d.running
    → (run_with (last_events m) d).phase ≡ stopped (leb d.running m)
unfolding run_with happens
drain zero d p r = let none_left : leb d.running 0 ≡ false = ground arith in rw (p, none_left) refl
drain (suc m) d p r = elim (Bool-cases (d.running == 1)) [
  | inl e ↦
      let all_left : leb d.running (suc m) ≡ true = ground arith in
      stays_stopped m (happens session_ends d) (ends_last d p (ground arith))
      ∙ ap stopped (sym all_left)
  | inr e ↦
      let (still, one_less) = ends_one d p (ground arith) in
      let same : leb (d.running - 1) m ≡ leb d.running (suc m) = ground arith in
      drain m (happens session_ends d) still (ground arith)
      ∙ ap (λ n. stopped (leb n m)) one_less
      ∙ ap stopped same
]

some_left : (d : Daemon) → d.running == 0 ≡ false → 0 < d.running
some_left d e = ground arith

stop_listening :
    (m : ℕ) (d : Daemon)
    → d.phase ≡ listening
    → (run_with (last_events m) (happens shuts_down d)).phase ≡ stopped (leb d.running m)
unfolding happens
stop_listening m d l =
    let same : (happens shuts_down d).running ≡ d.running = rw l refl in
    elim (Bool-cases (d.running == 0)) [
      | inl e ↦
          let idle : leb d.running m ≡ true = ground arith in
          stays_stopped m (happens shuts_down d) (rw (l, e) refl) ∙ ap stopped (sym idle)
      | inr e ↦
          drain m (happens shuts_down d) (rw (l, e) refl) (omega (arith, same, some_left d e))
          ∙ ap (λ n. stopped (leb n m)) same
    ]

module _ (config : ServerConfig) (es : List Happening) where
  -- The daemon after these events.
  abbrev pub daemon : Daemon
  daemon = run_with es (daemon_at_start config)

  limited : Limited config daemon
  limited = run_with-Limited config es (daemon_at_start config) (omega arith)

  -- Whatever happened, no more sessions run than the configuration allows; and a new connection
  -- becomes a session if fewer run, and else is rejected and changes nothing else, while the daemon
  -- listens; after that it changes nothing.
  pub run_with-connects :
      (daemon.running ≤ config.max_connections)
      × (happens connects daemon ≡ connected config daemon.phase daemon)
  unfolding happens
  run_with-connects = (omega (arith, limited), connects_decided config daemon.phase daemon limited)

  -- When the daemon is told to stop it returns, whatever number of its sessions end before the grace is
  -- over, and says whether all of them had ended.
  pub run_with-last_events :
      (m : ℕ)
      → daemon.phase ≡ listening
      → (run_with (shuts_down ∷ last_events m) daemon).phase ≡ stopped (leb daemon.running m)
  unfolding run_with happens
  run_with-last_events m l = stop_listening m daemon l
