-- ===== src/Start/Free.antt =====
-- main.c: what `main` frees where the daemon cannot be made, and behind the loop of the server.
use ebbnc.Common.{ℕ, ◌≤◌, ◌≡◌, refl, ◌∙◌, arith, true, false, some, List, ◌++◌, ◌==◌, length}
use mathlib.Core.Path.{fun_ext}
use ebbnc.System
use ebbnc.System.{Io, ret}
use ebbnc.Memory.{Ptr, null, Heap, ok, Cmd, pure, ◌>>=◌, config_at, ConfigBlock, ServerBlock}
use ebbnc.Memory.Release.{has, has-append, Blocks, Blocks-same, Blocks-behind, Blocks-apart, less}
use ebbnc.Memory.Chain.{Cells, Chain}
use ebbnc.Memory.Ends.{addresses}
use ebbnc.Memory.Links.{bind_assoc}
use ebbnc.Config.Free.{config_free}
use ebbnc.Config.Free.Frees.{config_parts, config_free_lem}
use ebbnc.Server.{Server, server_free_list}
use ebbnc.Server.Free.{servers, free_server_list}
use ebbnc.Server.Free.Frees.{Stand, free_server_list-server_free_list}

-- `Server_freeList(&servers); Config_free(&config);`, with what is left in the two pointers.
unfoldable pub clean_up : ℕ → Ptr → Ptr → Cmd (Ptr × Ptr)
unfolding free_server_list config_free
clean_up fuel list config = do s ← free_server_list fuel list; c ← config_free config; pure (s, c)

has-config_parts : (p : Ptr) (c : ConfigBlock) → has p (config_parts p c) ≡ true
has-config_parts p c = ground arith

less-less : (ps qs : List Ptr) (h : Heap) → less qs (less ps h) ≡ less (ps ++ qs) h
less-less ps qs h = fun_ext λ a. ground (arith, has-append a ps qs)

module _ (h : Heap) (ps qs : List Ptr) (is : Blocks h (ps ++ qs)) where
  less_same : (a : Ptr) → has a qs ≡ true → less ps h a ≡ h a
  less_same a i = ground (arith, Blocks-apart h ps qs is a i)

-- Where the records of the servers, the configuration and those of its two strings that are not null
-- are blocks that differ from each other, and the records stand for a list of servers, with at least
-- as many turns as there are servers, the end of `main` accesses no freed memory, makes the calls of
-- `Server_freeList` on the list, leaves null pointers, and has freed these blocks and nothing else:
-- bouncers in blocks of their own are left as they were.
pub clean_up-eq :
    (fuel : ℕ) (h : Heap) (p : Ptr) (cells : Cells ServerBlock) (list : List Server) (q : Ptr)
    (c : ConfigBlock)
    → Chain servers h p cells
    → Stand cells list
    → length cells ≤ fuel
    → (q == null) ≡ false
    → h q ≡ some (config_at c)
    → Blocks h (addresses cells ++ config_parts q c)
    → clean_up fuel p q h
      ≡ System.◌>>=◌
          (server_free_list list)
          (λ u. ret (ok (null, null) (less (addresses cells ++ config_parts q c) h)))
unfolding clean_up
clean_up-eq fuel h p cells list q c chain stand enough real at is =
    rw
      (
        free_server_list-server_free_list fuel h p cells list chain stand enough,
        bind_assoc,
        config_free_lem (less (addresses cells) h) q c real
            (less_same h (addresses cells) (config_parts q c) is q (has-config_parts q c) ∙ at)
            (Blocks-same (less (addresses cells) h) h (config_parts q c)
              (less_same h (addresses cells) (config_parts q c) is)
              (Blocks-behind h (addresses cells) (config_parts q c) is)),
        less-less (addresses cells) (config_parts q c) h,
      )
      refl
