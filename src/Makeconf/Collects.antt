-- ===== src/Makeconf/Collects.antt =====
-- Proofs on any answer to makeconf.c's questions that is typed in printed characters.
use ebbnc.Common.{
  ℕ, ◌≡◌, sym, ◌∙◌, arith, Bool, true, Option, none, some, length, leb, Bytes, codes,
}
use ebbnc.Libc.Tokens.{IsToken, strtok-Parts}
use ebbnc.Misc.{prompt_input}
use ebbnc.Config.Load.{Resolver}
use ebbnc.Makeconf.{
  Stage, bouncer_next, bouncer_listen, bouncer_remote, bouncer_local, bouncer_another, idnt,
  ident_timeout, idle_timeout, write_timeout, dns_lookup, pid_file, welcome_msg, password, finished,
  plain, Editor, ask_password, ask,
}
use ebbnc.Makeconf.Typed.{IsPrinted, IsTyped, Fits, prompt_input-line, prompt_input-IsPrinted}
use ebbnc.Makeconf.Leaves.{Leaves, if-Leaves, ask_flag-Leaves, ask_timeout-Leaves, ask_text-Leaves}
use ebbnc.Makeconf.Hands.{opened}
use ebbnc.Makeconf.LeavesBouncer.{
  ask_listen-Leaves, ask_remote-Leaves, ask_local-Leaves, ask_another-Leaves,
}

module _ (alloc : ℕ → Bool) (has_room : (n : ℕ) → alloc n ≡ true) (r : Resolver) where
  -- `inet_pton` takes no empty text and none with a space.
  module _ (ip_token : (s : Bytes) → r.valid_ip s ≡ true → IsToken b' ' s) where
    pub ask-Leaves :
        (s : Stage) (ed : Editor) (input : Option Bytes)
        → ed.stage ≡ s
        → ed.error ≡ plain
        → ed.config.idnt ≡ true
        → Fits r s ed.config ed.bouncer
        → IsTyped s input
        → Leaves r (ask alloc r s ed input)
    unfolding ask ask_password
    ask-Leaves bouncer_next ed input at fresh flag v typed =
        rw (at, fresh)
          (record {
            ident = v.ident;
            idle = v.idle;
            write = v.write;
            pid = v.pid;
            msg = v.msg;
            hand = opened r ed.bouncer v.hand;
            list = v.list;
          })
    ask-Leaves bouncer_listen ed input at fresh flag v (line, printed, e) =
        ask_listen-Leaves alloc has_room r ed _ at fresh v (
          strtok-Parts b':' IsPrinted (prompt_input input none)
            (prompt_input-IsPrinted line input printed e))
    ask-Leaves bouncer_remote ed input at fresh flag v (line, printed, e) =
        ask_remote-Leaves alloc has_room r ed _ at fresh v (
          strtok-Parts b':' IsPrinted (prompt_input input none)
            (prompt_input-IsPrinted line input printed e))
    ask-Leaves bouncer_local ed input at fresh flag v (line, printed, e) =
        ask_local-Leaves alloc has_room r ed _ at fresh v
          (prompt_input-line line (codes "None") input printed (ground arith) (λ z. cc) e).1
          (ip_token _)
    ask-Leaves bouncer_another ed input at fresh flag v typed =
        ask_another-Leaves alloc has_room r ed _ at fresh v
    ask-Leaves idnt ed input at fresh flag v typed =
        ask_flag-Leaves r idnt ed at fresh alloc _ _ v (λ f. record {
          ident = tt;
          idle = v.idle;
          write = v.write;
          pid = v.pid;
          msg = v.msg;
          hand = tt;
          list = v.list;
        })
    ask-Leaves ident_timeout ed input at fresh flag v typed =
        if-Leaves r ed.config.idnt _ _
          (λ on_flag.
            ask_timeout-Leaves r ident_timeout ed at fresh alloc _ _ v
              (λ t. record {
                ident = v.ident;
                idle = v.idle;
                write = v.write;
                pid = v.pid;
                msg = v.msg;
                hand = tt;
                list = v.list;
              })
              (λ t fits. record {
                ident = fits;
                idle = tt;
                write = v.write;
                pid = v.pid;
                msg = v.msg;
                hand = tt;
                list = v.list;
              }))
          (λ off. absurd (ground (arith, sym flag ∙ off)))
    ask-Leaves idle_timeout ed input at fresh flag v typed =
        ask_timeout-Leaves r idle_timeout ed at fresh alloc _ _ v
          (λ t. record {
            ident = v.ident;
            idle = v.idle;
            write = v.write;
            pid = v.pid;
            msg = v.msg;
            hand = tt;
            list = v.list;
          })
          (λ t fits. record {
            ident = v.ident;
            idle = fits;
            write = tt;
            pid = v.pid;
            msg = v.msg;
            hand = tt;
            list = v.list;
          })
    ask-Leaves write_timeout ed input at fresh flag v typed =
        ask_timeout-Leaves r write_timeout ed at fresh alloc _ _ v
          (λ t. record {
            ident = v.ident;
            idle = v.idle;
            write = v.write;
            pid = v.pid;
            msg = v.msg;
            hand = tt;
            list = v.list;
          })
          (λ t fits. record {
            ident = v.ident;
            idle = v.idle;
            write = fits;
            pid = v.pid;
            msg = v.msg;
            hand = tt;
            list = v.list;
          })
    ask-Leaves dns_lookup ed input at fresh flag v typed =
        ask_flag-Leaves r dns_lookup ed at fresh alloc _ _ v (λ f. record {
          ident = v.ident;
          idle = v.idle;
          write = v.write;
          pid = v.pid;
          msg = v.msg;
          hand = tt;
          list = v.list;
        })
    ask-Leaves pid_file ed input at fresh flag v (line, printed, e) =
        ask_text-Leaves alloc has_room r pid_file ed _ _ at fresh
          (record {
            ident = v.ident;
            idle = v.idle;
            write = v.write;
            pid = v.pid;
            msg = v.msg;
            hand = tt;
            list = v.list;
          })
          (prompt_input-line line (codes "none") input printed (ground arith) (λ z. cc) e)
          (λ o h. record {
            ident = v.ident;
            idle = v.idle;
            write = v.write;
            pid = h;
            msg = v.msg;
            hand = tt;
            list = v.list;
          })
    ask-Leaves welcome_msg ed input at fresh flag v (line, printed, e) =
        ask_text-Leaves alloc has_room r welcome_msg ed _ _ at fresh
          (record {
            ident = v.ident;
            idle = v.idle;
            write = v.write;
            pid = v.pid;
            msg = v.msg;
            hand = tt;
            list = v.list;
          })
          (prompt_input-line line (codes "none") input printed (ground arith) (λ z. cc) e)
          (λ o h. record {
            ident = v.ident;
            idle = v.idle;
            write = v.write;
            pid = v.pid;
            msg = h;
            hand = tt;
            list = v.list;
          })
    ask-Leaves password ed none at fresh flag v typed = tt
    ask-Leaves password ed (some value) at fresh flag v typed =
        if-Leaves r (leb 8 (length value)) _ _
          (λ e.
            rw (at, fresh)
              (record {
                ident = v.ident;
                idle = v.idle;
                write = v.write;
                pid = v.pid;
                msg = v.msg;
                hand = tt;
                list = v.list;
              }))
          (λ e. rw at v)
    ask-Leaves finished ed input at fresh flag v typed = rw (at, fresh) v
