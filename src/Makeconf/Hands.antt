-- ===== src/Makeconf/Hands.antt =====
-- Proofs on what makeconf.c's dialogue knows of the bouncer at hand.
use ebbnc.Common.{◌≡◌, ap, ◌∙◌, arith, Bool, true, false, ◌&&◌, Option, none, some, int_of_long}
use ebbnc.Misc.{is_valid_port}
use ebbnc.Config.{Bouncer, Config}
use ebbnc.Config.Load.{Resolver}
use ebbnc.Makeconf.{
  Stage, bouncer_next, bouncer_listen, bouncer_remote, bouncer_local, bouncer_another,
}
use ebbnc.Makeconf.Typed.{ListenFits, RemoteFits, HandFits, Fits}

pub and_right : (a b : Bool) → (a && b) ≡ true → b ≡ true
and_right true b h = h
and_right false b h = absurd (ground arith)

module _ (r : Resolver) where
  -- Another bouncer at hand at the same stage.
  pub rehand :
      (s : Stage) (c : Config) (b b' : Option Bouncer)
      → Fits r s c b
      → HandFits r s b'
      → Fits r s c b'
  rehand s c b b' v h = record {
    ident = v.ident;
    idle = v.idle;
    write = v.write;
    pid = v.pid;
    msg = v.msg;
    hand = h;
    list = v.list;
  }

  pub opened : (b : Option Bouncer) → HandFits r bouncer_next b → HandFits r bouncer_listen b
  opened none h = tt
  opened (some b) h = h

  -- From one question on the bouncer to the next.
  pub hand_on :
      (c : Config) {b b' : Option Bouncer}
      → Fits r bouncer_listen c b
      → HandFits r bouncer_remote b'
      → Fits r bouncer_remote c b'
  hand_on c v h = record {
    ident = v.ident;
    idle = v.idle;
    write = v.write;
    pid = v.pid;
    msg = v.msg;
    hand = h;
    list = v.list;
  }

  pub hand_on_remote :
      (c : Config) {b b' : Option Bouncer}
      → Fits r bouncer_remote c b
      → HandFits r bouncer_local b'
      → Fits r bouncer_local c b'
  hand_on_remote c v h = record {
    ident = v.ident;
    idle = v.idle;
    write = v.write;
    pid = v.pid;
    msg = v.msg;
    hand = h;
    list = v.list;
  }

  pub hand_on_local :
      (c : Config) {b b' : Option Bouncer}
      → Fits r bouncer_local c b
      → HandFits r bouncer_another b'
      → Fits r bouncer_another c b'
  hand_on_local c v h = record {
    ident = v.ident;
    idle = v.idle;
    write = v.write;
    pid = v.pid;
    msg = v.msg;
    hand = h;
    list = v.list;
  }

  -- Another bouncer with the same listening address, or the same remote host.
  pub relisten :
      (b b' : Bouncer)
      → ListenFits r b
      → b'.listen_ip ≡ b.listen_ip
      → b'.listen_port ≡ b.listen_port
      → ListenFits r b'
  relisten b b' l i p = record {
    ip = l.ip;
    listen_ip = i ∙ l.listen_ip;
    token = l.token;
    printed = l.printed;
    valid = l.valid;
    port = ap (λ t. is_valid_port (int_of_long t)) p ∙ l.port;
  }

  pub reremote :
      (b b' : Bouncer)
      → RemoteFits r b
      → b'.remote_host ≡ b.remote_host
      → b'.remote_port ≡ b.remote_port
      → RemoteFits r b'
  reremote b b' l i p = record {
    host = l.host;
    remote_host = i ∙ l.remote_host;
    token = l.token;
    printed = l.printed;
    valid = l.valid;
    port = ap (λ t. is_valid_port (int_of_long t)) p ∙ l.port;
  }
