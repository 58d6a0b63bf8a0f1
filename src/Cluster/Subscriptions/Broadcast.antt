-- ===== src/Cluster/Subscriptions/Broadcast.antt =====
-- What cloud/cluster/cluster.go sends to its subscribers keeps them in step with its view.
use scoot.Base.{
  ℕ, ◌<◌, ◌≡◌, refl, sym, ap, ◌∙◌, subst, inl, inr, true, false, not, ◌&&◌, List, [], ◌∷◌, ◌++◌,
  arith, ◌==◌, ==_iff, All, All-map, All-zip, Bool-cases, if◌then◌else◌, if-cases,
}
use mathlib.Core.List.{append_assoc}
use scoot.Cluster.Node.{NodeUpdate}
use scoot.Cluster.State.{Nodes, set_nodes}
use scoot.Cluster.State.Ids.{Follows}
use scoot.Cluster.State.Follow.{IsView, Follows-append}
use scoot.Cluster.Subscriptions.{
  Subscriber, Cluster, write, enqueue, broadcast, shut, close_all, when_done, has_channel,
}

-- What a subscriber was given, took and has waiting leads to the view.
abbrev pub IsFollowing : Nodes → Subscriber → Type 0
IsFollowing nodes s = Follows (set_nodes [] s.initial) (s.received ++ s.queue) nodes

abbrev pub IsApart : List ℕ → Type 0
IsApart [] = Unit
IsApart (ch ∷ subs) = (has_channel ch subs ≡ false) × IsApart subs

pub record IsServed (c : Cluster) : Type 0 where
  pub view : IsView c.nodes
  pub apart : IsApart c.subs
  pub known : All (λ ch. ch < c.next) c.subs
  pub following : All (λ ch. IsFollowing c.nodes (c.subscriber ch)) c.subs

-- A broadcast reaches each of the channels once, and no other.
broadcast_elsewhere :
    (us : List NodeUpdate) (subs : List ℕ) (subscriber : ℕ → Subscriber) (q : ℕ)
    → has_channel q subs ≡ false
    → broadcast us subs subscriber q ≡ subscriber q
unfolding broadcast
broadcast_elsewhere us [] subscriber q h = refl
broadcast_elsewhere us (ch ∷ subs) subscriber q h = elim (Bool-cases (ch == q)) [
  | inl e ↦ absurd (ground (arith, (rw e at h)))
  | inr e ↦ broadcast_elsewhere us subs _ q (rw e at h) ∙ rw e
]

pub self_eq : (ch : ℕ) → (ch == ch) ≡ true
self_eq ch = ground arith

others : (ch : ℕ) (subs : List ℕ) → has_channel ch subs ≡ false → All (λ q. (ch == q) ≡ false) subs
others ch [] h = tt
others ch (q ∷ subs) h = elim (Bool-cases (q == ch)) [
  | inl e ↦ absurd (ground (arith, (rw e at h)))
  | inr e ↦ (ground arith, others ch subs (rw e at h))
]

-- A write to one channel leaves what holds of the others.
write-others :
    (P : Subscriber → Type 0) (ch : ℕ) (new : Subscriber) (subscriber : ℕ → Subscriber)
    (subs : List ℕ)
    → has_channel ch subs ≡ false
    → All (λ q. P (subscriber q)) subs
    → All (λ q. P (write ch new subscriber q)) subs
write-others P ch new subscriber subs h a =
    All-map (λ q. ((ch == q) ≡ false) × P (subscriber q)) (λ q. P (write ch new subscriber q)) subs
      (λ q x. rw x.0 x.1)
      (All-zip (λ q. (ch == q) ≡ false) (λ q. P (subscriber q)) subs (others ch subs h) a)

enqueue-IsFollowing :
    (s t : Nodes) (us : List NodeUpdate) (x : Subscriber)
    → Follows s us t
    → IsFollowing s x
    → IsFollowing t (enqueue us x)
enqueue-IsFollowing s t us x f h =
    rw (← append_assoc x.received x.queue us)
      (Follows-append (set_nodes [] x.initial) s t (x.received ++ x.queue) us h f)

broadcast-IsFollowing :
    (s t : Nodes) (us : List NodeUpdate) (subs : List ℕ) (subscriber : ℕ → Subscriber)
    → Follows s us t
    → IsApart subs
    → All (λ ch. IsFollowing s (subscriber ch)) subs
    → All (λ ch. IsFollowing t (broadcast us subs subscriber ch)) subs
unfolding broadcast
broadcast-IsFollowing s t us [] subscriber f a h = tt
broadcast-IsFollowing s t us (ch ∷ subs) subscriber f a h =
    let next = write ch (enqueue us (subscriber ch)) subscriber in
    (
      subst (IsFollowing t)
          (sym (
            broadcast_elsewhere us subs next ch a.0
            ∙ ap (λ b. if b then enqueue us (subscriber ch) else subscriber ch) (self_eq ch)))
          (enqueue-IsFollowing s t us (subscriber ch) f h.0),
      broadcast-IsFollowing s t us subs next f a.1
          (write-others (IsFollowing s) ch (enqueue us (subscriber ch)) subscriber subs a.0 h.1),
    )

pub outgoing-IsServed :
    (c : Cluster) (t : Nodes) (us : List NodeUpdate)
    → IsView t
    → Follows c.nodes us t
    → IsServed c
    → IsServed (record c { nodes = t; subscriber = broadcast us c.subs c.subscriber })
outgoing-IsServed c t us v f h = record {
  view = v;
  apart = h.apart;
  known = h.known;
  following = broadcast-IsFollowing c.nodes t us c.subs c.subscriber f h.apart h.following;
}

-- A write that keeps what holds of its channel.
pub write-keeps :
    (P : Subscriber → Type 0) (ch : ℕ) (new : Subscriber) (subscriber : ℕ → Subscriber)
    (subs : List ℕ)
    → (P (subscriber ch) → P new)
    → All (λ q. P (subscriber q)) subs
    → All (λ q. P (write ch new subscriber q)) subs
write-keeps P ch new subscriber subs g h =
    All-map (λ q. P (subscriber q)) (λ q. P (write ch new subscriber q)) subs
      (λ q x.
        if-cases P (ch == q) new (subscriber q)
          (λ e. g (subst (λ r. P (subscriber r)) (sym ((==_iff ch q).0 e)) x)) (λ e. x))
      h

-- A channel that is closed keeps what its subscriber has.
close_all-IsFollowing :
    (nodes : Nodes) (qs subs : List ℕ) (subscriber : ℕ → Subscriber)
    → All (λ ch. IsFollowing nodes (subscriber ch)) subs
    → All (λ ch. IsFollowing nodes (close_all qs subscriber ch)) subs
unfolding close_all
close_all-IsFollowing nodes [] subs subscriber h = h
close_all-IsFollowing nodes (q ∷ qs) subs subscriber h =
    close_all-IsFollowing nodes qs subs (write q (shut (subscriber q)) subscriber)
      (write-keeps (IsFollowing nodes) q (shut (subscriber q)) subscriber subs (λ x. x) h)

pub when_done-IsServed : (c : Cluster) → IsServed c → IsServed (when_done c)
when_done-IsServed c h =
    if-cases IsServed (not c.has_requests && not c.has_updates)
      (record c { subscriber = close_all c.subs c.subscriber }) c
      (λ e. record {
        view = h.view;
        apart = h.apart;
        known = h.known;
        following = close_all-IsFollowing c.nodes c.subs c.subs c.subscriber h.following;
      })
      (λ e. h)
