-- ===== src/Shutdown/Draining.antt =====
-- `begin_draining` and `draining_notified` of src/shutdown.rs, cut at their atomics, among any number
-- of threads that begin to drain.
use update_delivery_system.Prelude.{
  ℕ, suc, ◌+◌, ◌≤◌, ◌<◌, ◌≡◌, refl, ◌≢◌, ◌⊎◌, inl, inr, Bool, true, false, arith,
}

-- Where `draining_notified` stands: at its first test, below it, below `notified()`, at
-- `notified.await`, returned. The number is what the `Notified` future remembers.
pub data DrainWaiter : Type 0 where
  testing unregistered : DrainWaiter
  registered awaiting : ℕ → DrainWaiter
  returned : DrainWaiter

pub record DrainWorld : Type 0 where
  pub draining : Bool
  pub drain_started : ℕ
  -- The threads between a successful exchange and `notify_waiters`, and those that returned `true`.
  pub to_notify : ℕ
  pub began : ℕ
  pub waiter : DrainWaiter

abbrev pub start : DrainWorld
start = record { draining = false; drain_started = 0; to_notify = 0; began = 0; waiter = testing }

pub data DrainStep (w : DrainWorld) : DrainWorld → Type 0 where
  exchanges :
      w.draining ≡ false → DrainStep w (record w { draining = true; to_notify = w.to_notify + 1 })
  already_draining : w.draining ≡ true → DrainStep w w
  notifies :
      (n : ℕ)
      → w.to_notify ≡ suc n
      → DrainStep w
          (record w { drain_started = w.drain_started + 1; to_notify = n; began = w.began + 1 })
  passes :
      w.waiter ≡ testing → w.draining ≡ false → DrainStep w (record w { waiter = unregistered })
  leaves_early :
      w.waiter ≡ testing → w.draining ≡ true → DrainStep w (record w { waiter = returned })
  registers :
      w.waiter ≡ unregistered → DrainStep w (record w { waiter = registered w.drain_started })
  leaves :
      (e : ℕ)
      → w.waiter ≡ registered e
      → w.draining ≡ true
      → DrainStep w (record w { waiter = returned })
  waits :
      (e : ℕ)
      → w.waiter ≡ registered e
      → w.draining ≡ false
      → DrainStep w (record w { waiter = awaiting e })
  wakes :
      (e : ℕ)
      → w.waiter ≡ awaiting e
      → w.drain_started ≢ e
      → DrainStep w (record w { waiter = returned })

pub data DrainReach : DrainWorld → Type 0 where
  here : DrainReach start
  next : {w v : DrainWorld} → DrainReach w → DrainStep w v → DrainReach v

-- Before the exchange nothing has happened; after it exactly one thread is to notify or has.
abbrev Once : Bool → ℕ → ℕ → Type 0
Once false n b = (n ≡ 0) × (b ≡ 0)
Once true n b = n + b ≡ 1

abbrev Remembers : Bool → ℕ → ℕ → DrainWaiter → Type 0
Remembers d c n (awaiting e) = (e ≤ c) × (d ≡ true → (0 < n) ⊎ (e < c))
Remembers d c n (registered e) = e ≤ c
Remembers d c n testing = Unit
Remembers d c n unregistered = Unit
Remembers d c n returned = d ≡ true

record IsSound (w : DrainWorld) : Type 0 where
  counted : w.drain_started ≡ w.began
  once : Once w.draining w.to_notify w.began
  remembers : Remembers w.draining w.drain_started w.to_notify w.waiter

Remembers-exchange :
    (c n : ℕ) (p : DrainWaiter) → Remembers false c n p → Remembers true c (n + 1) p
Remembers-exchange c n testing h = tt
Remembers-exchange c n unregistered h = tt
Remembers-exchange c n (registered e) h = h
Remembers-exchange c n (awaiting e) h = (h.0, λ _. inl (omega arith))
Remembers-exchange c n returned h = refl

Remembers-notice :
    (d : Bool) (c n n' : ℕ) (p : DrainWaiter) → Remembers d c n p → Remembers d (c + 1) n' p
Remembers-notice d c n n' testing h = tt
Remembers-notice d c n n' unregistered h = tt
Remembers-notice d c n n' (registered e) h = omega arith
Remembers-notice d c n n' (awaiting e) h = (omega (arith, h.0), λ _. inr (omega (arith, h.0)))
Remembers-notice d c n n' returned h = h

Once-notice : (d : Bool) (n b : ℕ) → Once d (suc n) b → Once d n (b + 1)
Once-notice false n b h = absurd (omega arith)
Once-notice true n b h = omega arith

DrainStep-IsSound : {w v : DrainWorld} → DrainStep w v → IsSound w → IsSound v
DrainStep-IsSound {w} (exchanges e) h = record {
  counted = h.counted;
  once = let o : Once false w.to_notify w.began = rw e at h.once in omega arith;
  remembers = Remembers-exchange _ _ w.waiter (rw e at h.remembers);
}
DrainStep-IsSound (already_draining e) h = h
DrainStep-IsSound {w} (notifies n e) h = record {
  counted = omega (arith, h.counted);
  once = Once-notice w.draining n w.began (rw e at h.once);
  remembers = Remembers-notice w.draining _ _ _ w.waiter h.remembers;
}
DrainStep-IsSound (passes p e) h = record { counted = h.counted; once = h.once; remembers = tt }
DrainStep-IsSound (leaves_early p e) h = record {
  counted = h.counted;
  once = h.once;
  remembers = e;
}
DrainStep-IsSound (registers p) h = record {
  counted = h.counted;
  once = h.once;
  remembers = omega arith;
}
DrainStep-IsSound {w} (leaves e p d) h = record {
  counted = h.counted;
  once = h.once;
  remembers = d;
}
DrainStep-IsSound {w} (waits e p d) h = record {
  counted = h.counted;
  once = h.once;
  remembers =
      let r : Remembers w.draining w.drain_started w.to_notify (registered e) =
        rw p at h.remembers in
      (r, λ x. cc);
}
DrainStep-IsSound {w} (wakes e p moved) h = record {
  counted = h.counted;
  once = h.once;
  remembers =
      let r : Remembers w.draining w.drain_started w.to_notify (awaiting e) = rw p at h.remembers in
      drained w.draining h.once (omega (arith, r.0, moved));
}
  where
    drained : (d : Bool) → Once d w.to_notify w.began → 0 < w.drain_started → d ≡ true
    drained false o pos = absurd (omega (arith, h.counted, o))
    drained true o pos = refl

DrainReach-IsSound : {w : DrainWorld} → DrainReach w → IsSound w
DrainReach-IsSound here = record { counted = refl; once = (refl, refl); remembers = tt }
DrainReach-IsSound (next r st) = DrainStep-IsSound st (DrainReach-IsSound r)

Once-le : (d : Bool) (n b : ℕ) → Once d n b → b ≤ 1
Once-le false n b h = omega arith
Once-le true n b h = omega arith

-- In every interleaving at most one `begin_draining` answers `true`, a waiter returns only once
-- draining has begun, and a waiter that awaits a notification not yet given, while draining has
-- begun, is going to get one: some thread is about to notify.
pub draining_notified_wakes :
    {w : DrainWorld}
    → DrainReach w
    → (w.began ≤ 1)
      × (w.waiter ≡ returned → w.draining ≡ true)
      × (w.waiter ≡ awaiting w.drain_started → w.draining ≡ true → 0 < w.to_notify)
draining_notified_wakes {w} r =
    let h = DrainReach-IsSound r in
    (
      Once-le w.draining w.to_notify w.began h.once,
      λ p. rw p at h.remembers,
      λ p d.
          let m : Remembers w.draining w.drain_started w.to_notify (awaiting w.drain_started) =
            rw p at h.remembers in
          omega (arith, m.1 d),
    )
