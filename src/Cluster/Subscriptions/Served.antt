-- ===== src/Cluster/Subscriptions/Served.antt =====
-- The subscribers of cloud/cluster/cluster.go follow the cluster's view.
use scoot.Base.{
  ℕ, suc, ◌<◌, ◌≡◌, refl, sym, ap, ◌∙◌, subst, inl, inr, String, Bool, true, false, ◌||◌,
  Option-cases, some, some_inj, List, [], ◌∷◌, ◌++◌, arith, ◌==◌, ==_iff, length, All, All-map,
  All-zip, All-append, if◌then◌else◌, if-cases, lookup,
}
use mathlib.Core.List.{Permᴰ, append-nil}
use scoot.Cluster.Node.{Node, NodeUpdate}
use scoot.Cluster.State.{Nodes, set_and_diff, set_nodes}
use scoot.Cluster.State.Replay.{filter_and_update-Replays}
use scoot.Cluster.State.Ids.{
  present, has_id, HasDistinctIds, apply_nodes, Follows, has_id-Permᴰ, HasDistinctIds-Permᴰ,
}
use scoot.Cluster.State.Diff.{set_nodes-present, node_values-has_id, set_and_diff-Follows}
use scoot.Cluster.State.Follow.{
  IsProper, Replays-Follows, filter_and_update-IsView, set_and_diff-IsView,
}
use scoot.Cluster.Subscriptions.{
  Cluster, write, broadcast, shut, when_done, without, has_channel, close_subscription, take_queue,
  new_subscriber, subscribed, Event, updates, new_state, subscribe, close_subscriber, take_updates,
  close_requests, close_updates, current, step, new_cluster,
}
use scoot.Cluster.Subscriptions.Broadcast.{
  IsFollowing, IsApart, IsServed, write-keeps, when_done-IsServed, outgoing-IsServed, self_eq,
}

All-without : (P : ℕ → Type 0) (ch : ℕ) (subs : List ℕ) → All P subs → All P (without ch subs)
All-without P ch [] h = tt
All-without P ch (q ∷ subs) h =
    if-cases (All P) (q == ch) subs (q ∷ without ch subs) (λ e. h.1)
      (λ e. (h.0, All-without P ch subs h.1))

has_channel-without :
    (q ch : ℕ) (subs : List ℕ)
    → has_channel q subs ≡ false
    → has_channel q (without ch subs) ≡ false
has_channel-without q ch [] h = refl
has_channel-without q ch (r ∷ subs) h = ground (arith, has_channel-without q ch subs)

without-IsApart : (ch : ℕ) (subs : List ℕ) → IsApart subs → IsApart (without ch subs)
without-IsApart ch [] a = tt
without-IsApart ch (q ∷ subs) a =
    if-cases IsApart (q == ch) subs (q ∷ without ch subs) (λ e. a.1)
      (λ e. (has_channel-without q ch subs a.0, without-IsApart ch subs a.1))

close_subscription-IsServed :
    (c : Cluster) (ch : ℕ) → IsServed c → IsServed (close_subscription c ch)
close_subscription-IsServed c ch h =
    if-cases IsServed (has_channel ch c.subs)
      (record c {
        subs = without ch c.subs;
        subscriber = write ch (shut (c.subscriber ch)) c.subscriber;
      })
      c
      (λ e. record {
        view = h.view;
        apart = without-IsApart ch c.subs h.apart;
        known = All-without (λ q. q < c.next) ch c.subs h.known;
        following =
            write-keeps (IsFollowing c.nodes) ch (shut (c.subscriber ch)) c.subscriber
              (without ch c.subs) (λ x. x)
              (All-without (λ q. IsFollowing c.nodes (c.subscriber q)) ch c.subs h.following);
      })
      (λ e. h)

-- A new channel is none of the old ones.
IsApart-append :
    (subs : List ℕ) (n : ℕ) → All (λ q. q < n) subs → IsApart subs → IsApart (subs ++ (n ∷ []))
IsApart-append [] n k a = (refl, tt)
IsApart-append (q ∷ subs) n k a =
    (has_channel-append q subs n a.0 k.0, IsApart-append subs n k.1 a.1)
  where
    has_channel-append :
        (q : ℕ) (subs : List ℕ) (n : ℕ)
        → has_channel q subs ≡ false
        → q < n
        → has_channel q (subs ++ (n ∷ [])) ≡ false
    has_channel-append q [] n h k = ground arith
    has_channel-append q (r ∷ subs) n h k = ground (arith, has_channel-append q subs n)

or_nothing : (i : String) (b : Bool) → (b || present i []) ≡ b
unfolding lookup
or_nothing i b = ground arith

module _ (sort : List Node → List Node) (sorts : (ns : List Node) → Permᴰ (sort ns) ns) where
  subscribed-IsFollowing :
      (s : Nodes) (ns : List Node)
      → ((i : String) → has_id i ns ≡ present i s)
      → IsFollowing s (new_subscriber (sort ns))
  unfolding apply_nodes
  subscribed-IsFollowing s ns m = (
    tt,
    λ i.
        set_nodes-present i [] (sort ns)
        ∙ rw (has_id-Permᴰ i (sorts ns), m i) (or_nothing i (present i s)),
  )

  subscribed-IsServed :
      (c : Cluster) (ns : List Node)
      → IsFollowing c.nodes (new_subscriber ns)
      → IsServed c
      → IsServed (subscribed c ns)
  subscribed-IsServed c ns f h = record {
    view = h.view;
    apart = IsApart-append c.subs c.next h.known h.apart;
    known =
        All-append (λ q. q < suc c.next) c.subs (c.next ∷ [])
          (All-map (λ q. q < c.next) (λ q. q < suc c.next) c.subs (λ q k. omega arith) h.known)
          (omega arith, tt);
    following =
        All-append (λ q. IsFollowing c.nodes (write c.next (new_subscriber ns) c.subscriber q))
          c.subs (c.next ∷ [])
          (All-map (λ q. (q < c.next) × IsFollowing c.nodes (c.subscriber q))
            (λ q. IsFollowing c.nodes (write c.next (new_subscriber ns) c.subscriber q)) c.subs
            (λ q x.
              if-cases (IsFollowing c.nodes) (c.next == q) (new_subscriber ns) (c.subscriber q)
                (λ e. absurd (omega (arith, x.0, (==_iff c.next q).0 e))) (λ e. x.1))
            (All-zip (λ q. q < c.next) (λ q. IsFollowing c.nodes (c.subscriber q)) c.subs h.known
              h.following))
          (
            subst (IsFollowing c.nodes)
                (sym
                  (ap (λ b. if b then new_subscriber ns else c.subscriber c.next) (self_eq c.next)))
                f,
            tt,
          );
  }

  -- What the environment sends.
  abbrev pub IsSane : Event → Type 0
  IsSane (updates us) = All IsProper us
  IsSane (new_state ns) = HasDistinctIds ns
  IsSane _ = Unit

  -- The channel of the event is open, and a client that takes updates finds some.
  abbrev pub CanHappen : Event → Cluster → Type 0
  CanHappen (updates us) c = c.has_updates ≡ true
  CanHappen (new_state ns) c = c.has_updates ≡ true
  CanHappen close_updates c = c.has_updates ≡ true
  CanHappen (take_updates ch) c = 0 < length (c.subscriber ch).queue
  CanHappen _ c = c.has_requests ≡ true

  take_queue-IsServed :
      (c : Cluster) (ch : ℕ) (us : List NodeUpdate)
      → us ≡ (c.subscriber ch).queue
      → 0 < length us
      → IsServed c
      → (d : Cluster) × (take_queue c ch us ≡ some d) × IsServed d
  take_queue-IsServed c ch [] e l h = absurd (omega arith)
  take_queue-IsServed c ch (u ∷ us) e l h =
      let x = c.subscriber ch in
      let new = record x { received = x.received ++ (u ∷ us); queue = [] } in
      (
        record c { subscriber = write ch new c.subscriber },
        refl,
        record {
          view = h.view;
          apart = h.apart;
          known = h.known;
          following =
              write-keeps (IsFollowing c.nodes) ch new c.subscriber c.subs
                (λ f. rw (append-nil (x.received ++ (u ∷ us))) (
                  subst (λ q. Follows (set_nodes [] x.initial) (x.received ++ q) c.nodes) (sym e)
                    f))
                h.following;
        },
      )

  -- No event panics, and each keeps the subscribers in step with the cluster's view.
  pub step-IsServed :
      (e : Event) (c : Cluster)
      → IsSane e
      → CanHappen e c
      → IsServed c
      → (d : Cluster) × (step sort e c ≡ some d) × IsServed d
  unfolding step current
  step-IsServed (updates us) c p o h =
      let (t, out, f, r) = filter_and_update-Replays c.nodes us in
      (
        record c { nodes = t; subscriber = broadcast out c.subs c.subscriber },
        rw (o, f) refl,
        outgoing-IsServed c t out (filter_and_update-IsView c.nodes t us out p h.view f)
            (Replays-Follows c.nodes t out r) h,
      )
  step-IsServed (new_state ns) c p o h =
      let (t, out, f, r) =
        set_and_diff-Follows sort sorts c.nodes (sort ns) h.view.0 h.view.1
          (HasDistinctIds-Permᴰ (sorts ns) p) in
      (
        record c { nodes = t; subscriber = broadcast out c.subs c.subscriber },
        rw (o, f) refl,
        outgoing-IsServed c t out (set_and_diff-IsView sort c.nodes t (sort ns) out f) r h,
      )
  step-IsServed subscribe c p o h =
      let (ns, e, m) = node_values-has_id c.nodes h.view.1 in
      (
        subscribed c (sort ns),
        rw (o, e) refl,
        subscribed-IsServed c (sort ns) (subscribed-IsFollowing c.nodes ns m) h,
      )
  step-IsServed (close_subscriber ch) c p o h =
      (close_subscription c ch, rw o refl, close_subscription-IsServed c ch h)
  step-IsServed (take_updates ch) c p o h =
      take_queue-IsServed c ch (c.subscriber ch).queue refl o h
  step-IsServed close_requests c p o h = (
    when_done (record c { has_requests = false }),
    rw o refl,
    when_done-IsServed (record c { has_requests = false })
        (record { view = h.view; apart = h.apart; known = h.known; following = h.following }),
  )
  step-IsServed close_updates c p o h = (
    when_done (record c { has_updates = false }),
    rw o refl,
    when_done-IsServed (record c { has_updates = false })
        (record { view = h.view; apart = h.apart; known = h.known; following = h.following }),
  )

  -- A new cluster serves nobody yet.
  pub new_cluster-IsServed :
      (ns : List Node) (c : Cluster) → new_cluster sort ns ≡ some c → IsServed c
  new_cluster-IsServed ns c h = elim (Option-cases (set_and_diff sort [] ns)) [
    | inl e ↦ absurd (ground (arith, (rw (e, new_cluster) at h)))
    | inr ((nodes, us), e) ↦ subst IsServed (some_inj.0 (rw (e, new_cluster) at h)) (record {
      view = set_and_diff-IsView sort [] nodes ns us e;
      apart = tt;
      known = tt;
      following = tt;
    })
  ]
