-- ===== src/Server/Free/Frees.antt =====
-- Proofs on what server.c frees.
use mathlib.Core.Path.{fun_ext}
use ebbnc.Common.{
  ℕ, ◌≤◌, ◌≡◌, refl, sym, ap, ap₂, subst, ◌∙◌, arith, true, List, [], ◌∷◌, length, pos,
}
use ebbnc.System
use ebbnc.System.{Io, ret}
use ebbnc.Memory.{Ptr, null, Heap, ok, server_at, ServerBlock}
use ebbnc.Memory.Release.{has, Blocks, less, less-cons, free_block}
use ebbnc.Memory.Chain.{Cells, Chain, Owning, owned, calls_of, calls_behind}
use ebbnc.Memory.Ends.{addresses, Chain-Blocks}
use ebbnc.Memory.Record.{load_as-ok}
use ebbnc.Memory.Links.{bind_assoc}
use ebbnc.Memory.Frees.{FreesOne, free_list_lem}
use ebbnc.Server.{Server, server_free, free_behind, server_free_list}
use ebbnc.Server.Free.{server?, servers, close_sock, free_server, free_server_list}

pub has_self : (p : Ptr) → has p (p ∷ []) ≡ true
has_self p = ground arith

abbrev pub server_owning : Owning ServerBlock servers
server_owning = record {
  owns = λ p s. p ∷ [];
  calls = λ s. close_sock s.sock;
  owns-self = λ p s. has_self p;
  owns-relink = λ p q s. refl;
  calls-relink = λ q s. refl;
}

pub free_server-FreesOne : FreesOne server_owning free_server
unfolding free_server
free_server-FreesOne h p s (real, at) is =
    rw (real, load_as-ok server? h p (server_at s) s real at refl, bind_assoc)
      (ap (System.◌>>=◌ (close_sock s.sock))
        (fun_ext λ u. rw ((free_block h p [] is).0, less-cons h p []) refl))

-- The records that stand for servers of the list.
abbrev pub Stand : Cells ServerBlock → List Server → Type 0
Stand [] [] = Unit
Stand [] (server ∷ list) = ⊥
Stand (c ∷ cells) [] = ⊥
Stand (c ∷ cells) (server ∷ list) =
    (c.1.sock ≡ pos server.sock) × (c.1.addr ≡ server.addr) × Stand cells list

calls_behind-free_behind :
    (cells : Cells ServerBlock) (list : List Server)
    → Stand cells list
    → calls_behind server_owning cells ≡ free_behind list
unfolding free_behind server_free
calls_behind-free_behind [] [] is = refl
calls_behind-free_behind [] (server ∷ list) is = elim is [ ]
calls_behind-free_behind (c ∷ cells) [] is = elim is [ ]
calls_behind-free_behind (c ∷ cells) (server ∷ list) (sock, addr, is) =
    rw (sock, calls_behind-free_behind cells list is) refl

calls_of-server_free_list :
    (cells : Cells ServerBlock) (list : List Server)
    → Stand cells list
    → calls_of server_owning cells ≡ server_free_list list
unfolding server_free_list server_free
calls_of-server_free_list [] [] is = refl
calls_of-server_free_list [] (server ∷ list) is = elim is [ ]
calls_of-server_free_list (c ∷ cells) [] is = elim is [ ]
calls_of-server_free_list (c ∷ cells) (server ∷ list) (sock, addr, is) =
    rw (sock, calls_behind-free_behind cells list is) refl

owned-addresses : (cells : Cells ServerBlock) → owned server_owning cells ≡ addresses cells
owned-addresses [] = refl
owned-addresses ((p, s) ∷ cells) = ap (◌∷◌ p) (owned-addresses cells)

-- On a list of records in memory that stand for a list of servers, with at least as many turns as
-- there are servers, `Server_freeList` ends without an access to freed memory, makes the calls of the
-- same function on the list, in their order, leaves a null pointer, and has freed each record of the
-- list and nothing else.
pub free_server_list-server_free_list :
    (fuel : ℕ) (h : Heap) (p : Ptr) (cells : Cells ServerBlock) (list : List Server)
    → Chain servers h p cells
    → Stand cells list
    → length cells ≤ fuel
    → free_server_list fuel p h
      ≡ System.◌>>=◌ (server_free_list list) (λ u. ret (ok null (less (addresses cells) h)))
unfolding free_server_list
free_server_list-server_free_list fuel h p cells list chain stand enough =
    free_list_lem server_owning free_server free_server-FreesOne fuel h p cells chain
      (subst (Blocks h) (sym (owned-addresses cells)) (Chain-Blocks servers h chain)) enough
    ∙ ap₂ (λ m ps. System.◌>>=◌ m (λ u. ret (ok null (less ps h))))
        (calls_of-server_free_list cells list stand) (owned-addresses cells)
