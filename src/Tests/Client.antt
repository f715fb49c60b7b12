-- ===== src/Tests/Client.antt =====
-- The thread of a client, its relay and its lookup of the user.
use ebbnc.Common.{◌≡◌, refl, arith, true, false, none, some, [], ◌∷◌, pos, negsuc, codes}
use ebbnc.Config.{config_new}
use ebbnc.System.Wp.{Wp}
use ebbnc.System.Descriptors.{descriptors}
use ebbnc.Address.{ip_from_sockaddr}
use ebbnc.Ident.{scan_reply, accept_reply, ident_lookup}
use ebbnc.Ident.Accepts.{user_reply, accept_reply-user_reply}
use ebbnc.Ident.Names.{Names, ident_lookup-Names}
use ebbnc.Client.Idnt.{Idnt, send_idnt-Idnt}
use ebbnc.Client.Idnt.Questions.{asking, before}
use ebbnc.Client.{Client, send_idnt, new_client, client_thread_main, poll_timeout, relay, ended}
use ebbnc.System.Channel.{channel}
use ebbnc.Client.Closes.{Closes, client_thread_main-Closes}
use ebbnc.Client.Contents.{Forwarded, relay-Forwarded}
use ebbnc.Client.Returned.{Returned, relay-Returned}
use ebbnc.Client.Deadline.{polls, relay-ended}
use ebbnc.Tests.Inputs.{loopback, client_addr, sample_bouncer}

client_thread_main-Closes_example :
    Wp descriptors
      (client_thread_main loopback 5 (new_client 4 client_addr config_new sample_bouncer))
      (Closes 4)
      (4 ∷ [])
unfolding poll_timeout ip_from_sockaddr
client_thread_main-Closes_example =
    client_thread_main-Closes loopback 4 client_addr config_new sample_bouncer 5 (negsuc 0)
      (codes "127.0.0.1") refl refl

relay-Forwarded_example :
    Wp (channel 4 5 false) (relay 4 5 3 (negsuc 0)) Forwarded (record { got = []; put = [] })
relay-Forwarded_example =
    relay-Forwarded 4 5 (λ e. omega (arith, e)) 3 (negsuc 0) (record { got = []; put = [] }) refl

relay-Returned_example :
    Wp (channel 5 4 true) (relay 4 5 3 (negsuc 0)) Returned (record { got = []; put = [] })
relay-Returned_example =
    relay-Returned 4 5 (λ e. omega (arith, e)) 3 (negsuc 0) (record { got = []; put = [] }) refl

relay-ended_example : Wp polls (relay 4 5 3 (pos 1000)) (λ p t. p ≡ ended) 2
relay-ended_example = relay-ended 4 5 (pos 1000) 2 3 (omega arith)

accept_reply-user_reply_example :
    accept_reply
      (pos 6193)
      (pos 23)
      (scan_reply (user_reply 6193 23 (codes " UNIX ") (codes "joe")))
    ≡ some (codes "joe")
accept_reply-user_reply_example =
    accept_reply-user_reply 6193 23 b' ' (codes "UNIX ") (codes "joe") (omega arith) (omega arith)
      (omega arith) (λ e. ground arith, omega arith, (refl, (refl, (refl, tt))))

ident_lookup-Names_example :
    Names 4 5 false (record { got = []; put = [] }) (ident_lookup 4 (pos 10))
ident_lookup-Names_example = ident_lookup-Names 4 5 false (record { got = []; put = [] }) 4 (pos 10)

abbrev greeted : Client
greeted = record (new_client 4 client_addr config_new sample_bouncer) { r_sock = some 5 }

send_idnt-Idnt_example :
    Wp
      (asking 4 5 client_addr)
      (send_idnt loopback greeted)
      (Idnt true (codes "127.0.0.1"))
      (before none none none)
unfolding ip_from_sockaddr
send_idnt-Idnt_example = send_idnt-Idnt loopback greeted 5 (codes "127.0.0.1") refl refl refl
