-- ===== src/Kvstore/Server/Runs.antt =====
-- `kvserver_handle` over any sequence of requests answers as the map does.
use group.Shared.{
  ℕ, suc, ◌+◌, ◌≤◌, ◌<◌, ◌≡◌, refl, ◌∙◌, Bool, true, false, Option, none, some, List, [], ◌∷◌,
  length, arith, All,
}
use group.Kvstore.Text.{CString, IsText, strlen, hash}
use group.Kvstore.Outcome.{Errno, Outcome, ok, max_keylen, max_vallen}
use group.Kvstore.Uthash.{Uthash}
use group.Kvstore.Cache.{Cache}
use group.Kvstore.Cache.Laws
use group.Kvstore.Store.{Access}
use group.Kvstore.Store.Swap.{put_chain, length-put_chain}
use group.Kvstore.Store.Refines.{update, view-put, update-bounded}
use group.Kvstore.Message.{
  Message, Note, getreq, putreq, delreq, getresp, resp, success, no_key_note, getmsg,
}
use group.Kvstore.Server.{Server, get, put, delete, handle, handle_no_tpc}
use group.Kvstore.Server.Spec.{Map, insert, remove, Models}
use group.Kvstore.Server.Refines
use group.Kvstore.Server.Writes

-- What a client asks.
pub data Request : Type 0 where
  ask : CString → Request
  store_pair : CString → CString → Request
  discard : CString → Request

abbrev pub IsFit : Request → Type 0
IsFit (ask k) = strlen k ≤ max_keylen
IsFit (store_pair k v) = (strlen k ≤ max_keylen) × (strlen v ≤ max_vallen) × IsText k × IsText v
IsFit (discard k) = strlen k ≤ max_keylen

abbrev pub message_of : Request → Message
message_of (ask k) = record { type = getreq; key = some k; value = none; message = none }
message_of (store_pair k v) = record { type = putreq; key = some k; value = some v; message = none }
message_of (discard k) = record { type = delreq; key = some k; value = none; message = none }

abbrev pub done : Note → Message
done n = record { type = resp; key = none; value = none; message = some n }

-- The map's answer to a request, and the map after it.
abbrev pub answer : Map → Request → Message
answer m (ask k) = elim (m k) [
  | none ↦ done no_key_note
  | some v ↦ record { type = getresp; key = some k; value = some v; message = some success }
]
answer m (store_pair k v) = done success
answer m (discard k) = elim (m k) [ none ↦ done no_key_note | some v ↦ done success ]

abbrev pub after : Map → Request → Map
after m (ask k) = m
after m (store_pair k v) = insert k v m
after m (discard k) = remove k m

pub answers : Map → List Request → List (Outcome Message)
answers m [] = []
answers m (r ∷ rs) = ok (answer m r) ∷ answers (after m r) rs

pub after_all : Map → List Request → Map
after_all m [] = m
after_all m (r ∷ rs) = after_all (after m r) rs

module _ (U : Uthash) (allows : Access → Bool) (fuel : ℕ) (fresh : Cache U → ℕ)
    (garbage : Option Errno) where
  -- One request after another.
  pub serve : Server U → List Request → List (Outcome Message) × Server U
  serve s [] = ([], s)
  serve s (r ∷ rs) =
      let (m, s') = handle U allows fuel fresh true garbage s (some (message_of r)) in
      let (ms, s'') = serve s' rs in (m ∷ ms, s'')

  module _ (all : (a : Access) → allows a ≡ true)
      (fresh-IsFree : (c : Cache U) → Laws.IsFree U (fresh c) c) where
    handle_ask :
        (s : Server U) (m : Map) (n : ℕ) (k : CString)
        → Models s m n
        → n < fuel
        → strlen k ≤ max_keylen
        → ((handle_no_tpc U allows fuel fresh true garbage s (message_of (ask k))).0
            ≡ ok (answer m (ask k)))
          × Models
              (handle_no_tpc U allows fuel fresh true garbage s (message_of (ask k))).1
              m
              (n + 1)
    unfolding handle_no_tpc getmsg
    handle_ask s m n k models lt short =
        let chains = models.chains in
        let (reply, after') =
          Refines.get-Coherent U allows all fuel fresh fresh-IsFree s chains models.coherent k short
            (omega (arith, models.bounded (hash k))) in
        (
          ground (arith, reply, models.content k),
          record {
            chains = chains;
            coherent = after';
            content = models.content;
            bounded = λ h. omega (arith, models.bounded h);
          },
        )

    handle_store :
        (s : Server U) (m : Map) (n : ℕ) (k v : CString)
        → Models s m n
        → n < fuel
        → IsFit (store_pair k v)
        → ((handle_no_tpc U allows fuel fresh true garbage s (message_of (store_pair k v))).0
            ≡ ok (done success))
          × Models
              (handle_no_tpc U allows fuel fresh true garbage s (message_of (store_pair k v))).1
              (insert k v m)
              (n + 1)
    unfolding handle_no_tpc
    handle_store s m n k v models lt (short, fits, tk, tv) =
        let chains = models.chains in
        let (reply, after') =
          Writes.put-Coherent U allows all fuel fresh fresh-IsFree s chains models.coherent k short
            (omega (arith, models.bounded (hash k))) v fits tk tv in
        (
          ground (arith, reply),
          record {
            chains = update chains (hash k) (put_chain k v (chains (hash k)));
            coherent = after';
            content = λ j. ground (arith, view-put chains k j v, models.content j);
            bounded =
                update-bounded chains (hash k) _ (n + 1) (λ h. omega (arith, models.bounded h))
                  (omega (arith, models.bounded (hash k), length-put_chain k v (chains (hash k))));
          },
        )

    handle_discard :
        (s : Server U) (m : Map) (n : ℕ) (k : CString)
        → Models s m n
        → n < fuel
        → strlen k ≤ max_keylen
        → ((handle_no_tpc U allows fuel fresh true garbage s (message_of (discard k))).0
            ≡ ok (answer m (discard k)))
          × Models
              (handle_no_tpc U allows fuel fresh true garbage s (message_of (discard k))).1
              (remove k m)
              (n + 1)
    unfolding handle_no_tpc getmsg
    handle_discard s m n k models lt short =
        let chains = models.chains in
        let (chains', reply, after', seen, bounded) =
          Writes.delete-Coherent U allows all fuel fresh fresh-IsFree s chains models.coherent k
            short (omega (arith, models.bounded (hash k))) in
        (
          ground (arith, reply, models.content k),
          record {
            chains = chains';
            coherent = after';
            content = λ j. ground (arith, seen j, models.content j);
            bounded = λ h. omega (arith, bounded n models.bounded h);
          },
        )

    -- A request that fits is answered as by the map, whatever the type.
    handle_fit :
        (s : Server U) (m : Map) (n : ℕ) (r : Request)
        → Models s m n
        → n < fuel
        → IsFit r
        → ((handle_no_tpc U allows fuel fresh true garbage s (message_of r)).0 ≡ ok (answer m r))
          × Models
              (handle_no_tpc U allows fuel fresh true garbage s (message_of r)).1
              (after m r)
              (n + 1)
    handle_fit s m n (ask k) = handle_ask s m n k
    handle_fit s m n (store_pair k v) = handle_store s m n k v
    handle_fit s m n (discard k) = handle_discard s m n k

    same_mode :
        (s : Server U) (r : Request)
        → (handle_no_tpc U allows fuel fresh true garbage s (message_of r)).1.use_tpc ≡ s.use_tpc
    unfolding handle_no_tpc get put delete
    same_mode s (ask k) = ground arith
    same_mode s (store_pair k v) = ground arith
    same_mode s (discard k) = ground arith

    handle_plain :
        (s : Server U) (r : Request)
        → s.use_tpc ≡ false
        → handle U allows fuel fresh true garbage s (some (message_of r))
          ≡ handle_no_tpc U allows fuel fresh true garbage s (message_of r)
    unfolding handle
    handle_plain s r h = rw h

    -- From a non-TPC server that models a map (in particular an empty one), any sequence of
    -- requests with keys and values of allowed length and without NUL is answered by
    -- kvserver_handle, request by request, as the map answers it, and the server ends up
    -- modelling the map that the requests make; on a file system that refuses nothing, with
    -- memory, an allocator that returns free addresses, and fuel above the chain lengths plus the
    -- number of requests.
    pub serve-answers :
        (rs : List Request) (s : Server U) (m : Map) (n : ℕ)
        → s.use_tpc ≡ false
        → Models s m n
        → n + length rs < fuel
        → All IsFit rs
        → ((serve s rs).0 ≡ answers m rs) × Models (serve s rs).1 (after_all m rs) (n + length rs)
    unfolding serve answers after_all
    serve-answers [] s m n mode models lt fits =
        let e : n + 0 ≡ n = omega arith in (refl, rw e models)
    serve-answers (r ∷ rs) s m n mode models lt fits =
        let (reply, models') = handle_fit s m n r models (omega arith) fits.0 in
        let run = handle_plain s r mode in
        let (replies, end) =
          serve-answers rs _ (after m r) (n + 1) (same_mode s r ∙ mode) models' (omega arith)
            fits.1 in
        let e : n + suc (length rs) ≡ n + 1 + length rs = omega arith in
        (rw run (cc (reply, replies)), rw (run, e) end)
