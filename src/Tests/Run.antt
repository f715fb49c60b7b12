-- ===== src/Tests/Run.antt =====
-- Runs of programs with a system that gives the same answers always.
use ebbnc.Common.{◌≡◌, refl, true, false, none, [], length, pos, negsuc, codes}
use ebbnc.System.{Call, Reply, run, ok, err, other, ready, found}
use ebbnc.System.Wp.{state_after}
use ebbnc.System.Channel.{channel}
use ebbnc.Client.{again, relay, relay_pass, forward, forward_input, forward_sent}
use ebbnc.Tests.Inputs.{client_addr}

-- Each `read` finds two bytes of the client, and each `write` takes all.
abbrev answers : (c : Call) → Reply c
answers (Call.calloc n) = true
answers (Call.socket family) = ok 5
answers (Call.close fd) = tt
answers (Call.listen fd) = ok tt
answers (Call.accept fd) = ok (6, client_addr)
answers (Call.getsockname fd) = ok client_addr
answers (Call.getpeername fd) = ok client_addr
answers (Call.setsockopt fd option) = tt
answers (Call.bind fd addr len) = ok tt
answers (Call.connect fd addr len) = ok tt
answers (Call.select fds) = ok (λ fd. true)
answers (Call.usleep time) = tt
answers (Call.poll a b timeout) = ready true false
answers (Call.read fd size) = ok (codes "hi")
answers (Call.write fd bytes) = ok (length bytes)
answers (Call.strerror errno) = codes "error"
answers (Call.getaddrinfo host service) = found client_addr
answers (Call.getnameinfo addr) = none
answers (Call.fdopen fd) = true
answers (Call.receive fd) = []
answers (Call.fclose fd) = tt
answers (Call.fprintf fd bytes) = true
answers (Call.read_file path) = err (other 1)
answers (Call.write_file path bytes) = true
answers (Call.kill pid) = ok tt
answers Call.fork = ok (pos 0)
answers Call.setsid = tt
answers Call.sigaction = true
answers Call.getpass = none
answers (Call.create_thread sock addr config bouncer) = true

-- Two passes go on, and the server has got what the client sent.
run-relay :
    let (past, p) = run (λ before c. answers c) [] (relay 4 5 2 (negsuc 0)) in
    (p ≡ again)
    × (state_after (channel 4 5 false) (record { got = []; put = [] }) past
        ≡ record { got = codes "hihi"; put = codes "hihi" })
unfolding run relay relay_pass forward forward_input forward_sent state_after
run-relay = (refl, refl)
