-- ===== src/Makeconf/LeavesBouncer.antt =====
-- Proofs on the answers to makeconf.c's questions on a bouncer, typed in printed characters.
use ebbnc.Common.{
  ℕ, ◌≡◌, refl, subst, Bool, true, ◌&&◌, Option, none, some, Bytes, All, int_of_long, codes,
  Bool-cases, Option-cases, inl, inr,
}
use ebbnc.Libc.{strtok, same_case}
use ebbnc.Libc.Tokens.{IsToken, Parts}
use ebbnc.Misc.{is_valid_port, str_to_long}
use ebbnc.Config.{Bouncer, bouncer_size}
use ebbnc.Config.Load.{Resolver}
use ebbnc.Makeconf.{
  bouncer_listen, bouncer_remote, bouncer_local, bouncer_another, plain, Editor, listen_port,
  ask_listen, remote_port, ask_remote, ask_local, ask_another,
}
use ebbnc.Makeconf.Typed.{IsPrinted, Fits}
use ebbnc.Makeconf.Leaves.{Leaves, if-Leaves, plain-Leaves, bad-Leaves, dup-some, dup_error-plain}
use ebbnc.Makeconf.Hands.{
  and_right, rehand, hand_on, hand_on_remote, hand_on_local, relisten, reremote,
}

module _ (alloc : ℕ → Bool) (has_room : (n : ℕ) → alloc n ≡ true) (r : Resolver) where
  listen_port-Leaves :
      (ed : Editor) (b : Bouncer) (ip : Bytes) (o : Option (Bytes × Bytes))
      → ed.stage ≡ bouncer_listen
      → Fits r bouncer_listen ed.config (some b)
      → b.listen_ip ≡ some ip
      → IsToken b':' ip
      → All IsPrinted ip
      → r.valid_ip ip ≡ true
      → Leaves r (listen_port alloc r ed b plain o)
  unfolding listen_port
  listen_port-Leaves ed b ip none at v given token printed valid =
      rw at (rehand r bouncer_listen ed.config (some b) _ v v.hand)
  listen_port-Leaves ed b ip (some (p, rest)) at v given token printed valid =
      let (port, number) = str_to_long p in
      if-Leaves r (number && is_valid_port (int_of_long port)) _ _
        (λ e. rw at (
          hand_on r ed.config v (
            record {
              ip = ip;
              listen_ip = given;
              token = token;
              printed = printed;
              valid = valid;
              port = and_right number _ e;
            },
            v.hand,
          )))
        (λ e. rw at (rehand r bouncer_listen ed.config (some b) _ v v.hand))

  pub ask_listen-Leaves :
      (ed : Editor) (o : Option (Bytes × Bytes))
      → ed.stage ≡ bouncer_listen
      → ed.error ≡ plain
      → Fits r bouncer_listen ed.config ed.bouncer
      → Parts b':' IsPrinted o
      → Leaves r (ask_listen alloc r ed o)
  unfolding ask_listen
  ask_listen-Leaves ed none at fresh v h =
      bad-Leaves r bouncer_listen ed at fresh ed.config ed.bouncer v
  ask_listen-Leaves ed (some (p, rest)) at fresh v (token, printed, more) =
      elim (Bool-cases (r.valid_ip p)) [
        | inr bad ↦ rw bad (bad-Leaves r bouncer_listen ed at fresh ed.config ed.bouncer v)
        | inl valid ↦ rw valid (elim (Option-cases ed.bouncer) [
          | inl nobody ↦ rw nobody tt
          | inr (b, given) ↦
              let w : Fits r bouncer_listen ed.config (some b) =
                subst (Fits r bouncer_listen ed.config) given v in
              rw (given, dup-some alloc has_room r p, dup_error-plain alloc has_room r p)
                (listen_port-Leaves (record ed { bouncer = some b })
                  (record b { listen_ip = some p }) p (strtok b' ' rest) at
                  (rehand r bouncer_listen ed.config (some b) _ w w.hand) refl token printed valid)
        ])
      ]

  remote_port-Leaves :
      (ed : Editor) (b : Bouncer) (host : Bytes) (o : Option (Bytes × Bytes))
      → ed.stage ≡ bouncer_remote
      → Fits r bouncer_remote ed.config (some b)
      → b.remote_host ≡ some host
      → IsToken b':' host
      → All IsPrinted host
      → r.valid_host (some host) ≡ true
      → Leaves r (remote_port alloc r ed b plain o)
  unfolding remote_port
  remote_port-Leaves ed b host none at v given token printed valid =
      rw at (
        rehand r bouncer_remote ed.config (some b) _ v
          (relisten r b _ v.hand.0 refl refl, v.hand.1))
  remote_port-Leaves ed b host (some (p, rest)) at v given token printed valid =
      let (port, number) = str_to_long p in
      if-Leaves r (number && is_valid_port (int_of_long port)) _ _
        (λ e. rw at (
          hand_on_remote r ed.config v (
            relisten r b _ v.hand.0 refl refl,
            record {
              host = host;
              remote_host = given;
              token = token;
              printed = printed;
              valid = valid;
              port = and_right number _ e;
            },
            v.hand.1,
          )))
        (λ e. rw at (
          rehand r bouncer_remote ed.config (some b) _ v
            (relisten r b _ v.hand.0 refl refl, v.hand.1)))

  pub ask_remote-Leaves :
      (ed : Editor) (o : Option (Bytes × Bytes))
      → ed.stage ≡ bouncer_remote
      → ed.error ≡ plain
      → Fits r bouncer_remote ed.config ed.bouncer
      → Parts b':' IsPrinted o
      → Leaves r (ask_remote alloc r ed o)
  unfolding ask_remote
  ask_remote-Leaves ed none at fresh v h =
      bad-Leaves r bouncer_remote ed at fresh ed.config ed.bouncer v
  ask_remote-Leaves ed (some (p, rest)) at fresh v (token, printed, more) =
      elim (Bool-cases (r.valid_host (some p))) [
        | inr bad ↦ rw bad (bad-Leaves r bouncer_remote ed at fresh ed.config ed.bouncer v)
        | inl valid ↦ rw valid (elim (Option-cases ed.bouncer) [
          | inl nobody ↦ rw nobody tt
          | inr (b, given) ↦
              let w : Fits r bouncer_remote ed.config (some b) =
                subst (Fits r bouncer_remote ed.config) given v in
              rw (given, dup-some alloc has_room r p, dup_error-plain alloc has_room r p)
                (remote_port-Leaves (record ed { bouncer = some b })
                  (record b { remote_host = some p }) p (strtok b' ' rest) at
                  (rehand r bouncer_remote ed.config (some b) _ w
                    (relisten r b _ w.hand.0 refl refl, w.hand.1))
                  refl token printed valid)
        ])
      ]

  pub ask_local-Leaves :
      (ed : Editor) (value : Bytes)
      → ed.stage ≡ bouncer_local
      → ed.error ≡ plain
      → Fits r bouncer_local ed.config ed.bouncer
      → All IsPrinted value
      → (r.valid_ip value ≡ true → IsToken b' ' value)
      → Leaves r (ask_local alloc r ed value)
  unfolding ask_local
  ask_local-Leaves ed value at fresh v printed whole =
      if-Leaves r (same_case value (codes "None")) _ _
        (λ e.
          plain-Leaves r bouncer_local ed at fresh ed.config ed.bouncer
            (hand_on_local r ed.config v v.hand))
        (λ e. elim (Bool-cases (r.valid_ip value)) [
          | inr bad ↦ rw bad (bad-Leaves r bouncer_local ed at fresh ed.config ed.bouncer v)
          | inl valid ↦ rw valid (elim (Option-cases ed.bouncer) [
            | inl nobody ↦ rw nobody tt
            | inr (b, given) ↦
                let w : Fits r bouncer_local ed.config (some b) =
                  subst (Fits r bouncer_local ed.config) given v in
                rw
                  (
                    given,
                    dup-some alloc has_room r value,
                    dup_error-plain alloc has_room r value,
                    at,
                  )
                  (hand_on_local r ed.config w (
                    relisten r b _ w.hand.0 refl refl,
                    reremote r b _ w.hand.1 refl refl,
                    (whole valid, printed, valid),
                  ))
          ])
        ])

  pub ask_another-Leaves :
      (ed : Editor) (value : Bytes)
      → ed.stage ≡ bouncer_another
      → ed.error ≡ plain
      → Fits r bouncer_another ed.config ed.bouncer
      → Leaves r (ask_another alloc r ed value)
  unfolding ask_another
  ask_another-Leaves ed value at fresh w = elim (Option-cases ed.bouncer) [
    | inl nobody ↦ rw nobody tt
    | inr (b, given) ↦
        let v : Fits r bouncer_another ed.config (some b) =
          subst (Fits r bouncer_another ed.config) given w in
        rw (given, has_room bouncer_size)
          (if-Leaves r (same_case value (codes "yes")) _ _
            (λ e. rw fresh (record {
              ident = v.ident;
              idle = v.idle;
              write = v.write;
              pid = v.pid;
              msg = v.msg;
              hand = tt;
              list = (v.hand, v.list);
            }))
            (λ e.
              if-Leaves r (same_case value (codes "no")) _ _
                (λ f.
                  rw (fresh, at)
                    (record {
                      ident = tt;
                      idle = v.idle;
                      write = v.write;
                      pid = v.pid;
                      msg = v.msg;
                      hand = tt;
                      list = (v.hand, v.list);
                    }))
                (λ f. rw at (record {
                  ident = v.ident;
                  idle = v.idle;
                  write = v.write;
                  pid = v.pid;
                  msg = v.msg;
                  hand = tt;
                  list = (v.hand, v.list);
                }))))
  ]
