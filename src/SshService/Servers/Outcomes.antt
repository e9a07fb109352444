-- ===== src/SshService/Servers/Outcomes.antt =====
-- How the SSH service ends.
use gitlab_ci_fargate_arm_dr.Prelude.{
  ◌≡◌, ◌≢◌, refl, sym, ap, ◌∙◌, String, [], Bool, true, Option, none, some, ◌⊎◌, inl, inr, arith,
}
use mathlib.Core.Path.{subst}
use gitlab_ci_fargate_arm_dr.Go.Errors.{Error, wrapped}
use gitlab_ci_fargate_arm_dr.SshService.Servers.{
  finished, Watcher, WatcherStep, register, arrive, take, cancel, Server, working, sending, done,
  Main, selecting, returned, panicked, Service, answer, ssh_failure, http_failure, start, Step,
  watch, sshd_exits, sshd_killed, listener_ends, closer_ends, receive_sshd, receive_listener,
  receive_closer, see_done, Reach, here, next,
}

-- What a server waits to send: an error of the format, if the format is the server's only way.
abbrev pub Sends : String → Server → Type 0
Sends format working = Unit
Sends format (sending r) = (e : Error) × (r ≡ some (wrapped format [] e))
Sends format done = Unit

-- Why `main` is where it is, from the state of the context and of sshd.
abbrev pub Explained : Main → Bool → Server → Type 0
Explained selecting cancelled sshd = sshd ≢ done
Explained returned cancelled sshd = cancelled ≡ true
Explained (panicked format r) cancelled sshd =
    ((format ≡ ssh_failure) × (sshd ≡ done))
    ⊎ ((e : Error) × (format ≡ http_failure) × (r ≡ some (wrapped "HTTP server listener: %w" [] e)))
    ⊎ ((e : Error) × (format ≡ http_failure)
        × (r ≡ some (wrapped "HTTP server graceful shutdown: %w" [] e))
        × (cancelled ≡ true))

pub record Inv (s : Service) : Type 0 where
  pub cancelled_finished : s.watcher.cancelled ≡ true → s.watcher.pc ≡ finished
  pub listener : Sends "HTTP server listener: %w" s.listener
  pub closer : Sends "HTTP server graceful shutdown: %w" s.closer
  pub closing : s.closer ≢ working → s.watcher.cancelled ≡ true
  pub explained : Explained s.main s.watcher.cancelled s.sshd

answer-Sends : (format : String) (r : Option Error) → Sends format (answer format r)
answer-Sends format none = tt
answer-Sends format (some e) = (e, refl)

Explained-watcher :
    (m : Main) (b c : Bool) (sshd : Server)
    → (b ≡ true → c ≡ true)
    → Explained m b sshd
    → Explained m c sshd
Explained-watcher selecting b c sshd h x = x
Explained-watcher returned b c sshd h x = h x
Explained-watcher (panicked format r) b c sshd h (inl x) = inl x
Explained-watcher (panicked format r) b c sshd h (inr (inl x)) = inr (inl x)
Explained-watcher (panicked format r) b c sshd h (inr (inr (e, p, q, on))) =
    inr (inr (e, p, q, h on))

WatcherStep-sound :
    {w v : Watcher}
    → WatcherStep w v
    → (w.cancelled ≡ true → w.pc ≡ finished)
    → (w.cancelled ≡ true → v.cancelled ≡ true) × (v.cancelled ≡ true → v.pc ≡ finished)
WatcherStep-sound (register p e) h = ground arith
WatcherStep-sound (arrive p e) h = ground arith
WatcherStep-sound (take p q e) h = ground arith
WatcherStep-sound (cancel p e) h = ground arith

module _ {s t : Service} where
  Step-Inv : Step s t → Inv s → Inv t
  Step-Inv (watch w m st e) i =
      let (on, sound) = WatcherStep-sound st i.cancelled_finished in
      subst Inv (sym e) (record {
        cancelled_finished = sound;
        listener = i.listener;
        closer = i.closer;
        closing = λ h. on (i.closing h);
        explained = Explained-watcher s.main s.watcher.cancelled w.cancelled s.sshd on i.explained;
      })
  Step-Inv (sshd_exits r m p e) i = subst Inv (sym e) (record {
    cancelled_finished = i.cancelled_finished;
    listener = i.listener;
    closer = i.closer;
    closing = i.closing;
    explained =
        subst (λ x. Explained x s.watcher.cancelled (sending r)) (sym m) (λ q. ground arith);
  })
  Step-Inv (sshd_killed k m p on e) i = subst Inv (sym e) (record {
    cancelled_finished = i.cancelled_finished;
    listener = i.listener;
    closer = i.closer;
    closing = i.closing;
    explained =
        subst (λ x. Explained x s.watcher.cancelled (sending (some k))) (sym m) (λ q. ground arith);
  })
  Step-Inv (listener_ends r m p e) i = subst Inv (sym e) (record {
    cancelled_finished = i.cancelled_finished;
    listener = answer-Sends "HTTP server listener: %w" r;
    closer = i.closer;
    closing = i.closing;
    explained = i.explained;
  })
  Step-Inv (closer_ends r m p on e) i = subst Inv (sym e) (record {
    cancelled_finished = i.cancelled_finished;
    listener = i.listener;
    closer = answer-Sends "HTTP server graceful shutdown: %w" r;
    closing = λ _. on;
    explained = i.explained;
  })
  Step-Inv (receive_sshd r m p e) i = subst Inv (sym e) (record {
    cancelled_finished = i.cancelled_finished;
    listener = i.listener;
    closer = i.closer;
    closing = i.closing;
    explained = inl (refl, refl);
  })
  Step-Inv (receive_listener r m p e) i =
      let (f, same) = subst (Sends "HTTP server listener: %w") p i.listener in
      subst Inv (sym e) (record {
        cancelled_finished = i.cancelled_finished;
        listener = tt;
        closer = i.closer;
        closing = i.closing;
        explained = inr (inl (f, refl, same));
      })
  Step-Inv (receive_closer r m p e) i =
      let (f, same) = subst (Sends "HTTP server graceful shutdown: %w") p i.closer in
      let on = i.closing (λ q. ground arith) in
      subst Inv (sym e) (record {
        cancelled_finished = i.cancelled_finished;
        listener = i.listener;
        closer = tt;
        closing = λ _. on;
        explained = inr (inr (f, refl, same, on));
      })
  Step-Inv (see_done m on e) i = subst Inv (sym e) (record {
    cancelled_finished = i.cancelled_finished;
    listener = i.listener;
    closer = i.closer;
    closing = i.closing;
    explained = on;
  })

start-Inv : Inv start
start-Inv = record {
  cancelled_finished = λ h. ground arith;
  listener = tt;
  closer = tt;
  closing = λ h. absurd (h refl);
  explained = λ h. ground arith;
}

run-Inv : {s t : Service} → Inv s → Reach s t → Inv t
run-Inv i here = i
run-Inv i (next r st) = Step-Inv st (run-Inv i r)

-- `main` is at its `select`, or it returned after the goroutine took a signal and cancelled the
-- context, or it panicked: for sshd, which has ended, or for the HTTP server, with an error of its
-- listener, or with one of its shutdown after the context was cancelled.
pub ends-Explained :
    {s : Service}
    → Reach start s
    → (s.main ≡ selecting)
      ⊎ ((s.main ≡ returned) × (s.watcher.cancelled ≡ true) × (s.watcher.pc ≡ finished))
      ⊎ ((r : Option Error) × (s.main ≡ panicked ssh_failure r) × (s.sshd ≡ done))
      ⊎ ((e : Error) × (s.main
            ≡ panicked http_failure (some (wrapped "HTTP server listener: %w" [] e))))
      ⊎ ((e : Error) × (s.main
            ≡ panicked http_failure (some (wrapped "HTTP server graceful shutdown: %w" [] e)))
          × (s.watcher.cancelled ≡ true))
ends-Explained {s} run = by_main s.main refl i.explained
  where
    i : Inv s
    i = run-Inv start-Inv run

    by_main :
        (m : Main)
        → s.main ≡ m
        → Explained m s.watcher.cancelled s.sshd
        → (s.main ≡ selecting)
          ⊎ ((s.main ≡ returned) × (s.watcher.cancelled ≡ true) × (s.watcher.pc ≡ finished))
          ⊎ ((r : Option Error) × (s.main ≡ panicked ssh_failure r) × (s.sshd ≡ done))
          ⊎ ((e : Error) × (s.main
                ≡ panicked http_failure (some (wrapped "HTTP server listener: %w" [] e))))
          ⊎ ((e : Error) × (s.main
                ≡ panicked http_failure (some (wrapped "HTTP server graceful shutdown: %w" [] e)))
              × (s.watcher.cancelled ≡ true))
    by_main selecting m x = inl m
    by_main returned m on = inr (inl (m, on, i.cancelled_finished on))
    by_main (panicked format r) m (inl (f, down)) =
        inr (inr (inl (r, m ∙ ap (λ g. panicked g r) f, down)))
    by_main (panicked format r) m (inr (inl (e, f, g))) =
        inr (inr (inr (inl (e, m ∙ ap (λ h. panicked h r) f ∙ ap (panicked http_failure) g))))
    by_main (panicked format r) m (inr (inr (e, f, g, on))) =
        inr (inr (inr (inr (e, m ∙ ap (λ h. panicked h r) f ∙ ap (panicked http_failure) g, on))))
