-- ===== src/Samples/Redis.antt =====
-- A Redis in memory: the stream with its pending entries, and the delayed retries.
use async_ai_document_pipeli.Prelude.{
  ℕ, ◌+◌, some, List, [], ◌∷◌, ◌++◌, map, String, str_eq, leb, if◌then◌else◌, length, elem,
  show_int,
}
use async_ai_document_pipeli.Core.Exec.{ok}
use async_ai_document_pipeli.Platform.{RedisClient, StreamFields}

pub record Entry : Type 0 where
  pub message_id : String
  pub fields : StreamFields
  pub times_delivered : ℕ

pub record Store : Type 0 where
  -- entries that no consumer has read
  pub waiting : List Entry
  -- entries that a consumer has read and not acknowledged
  pub pending : List Entry
  pub retries : List (String × ℕ)
  pub next_id : ℕ

abbrev pub empty_store : Store
empty_store = record { waiting = []; pending = []; retries = []; next_id = 1 }

unfoldable pub without_id : String → List Entry → List Entry
without_id id [] = []
without_id id (e ∷ es) =
    let rest = without_id id es in if str_eq e.message_id id then rest else e ∷ rest

abbrev deliver : Entry → Entry
deliver e = record e { times_delivered = e.times_delivered + 1 }

abbrev payload_of : Entry → String × StreamFields
payload_of e = (e.message_id, e.fields)

unfoldable pub due_by : ℕ → List (String × ℕ) → List String
due_by now [] = []
due_by now ((member, score) ∷ retries) =
    let rest = due_by now retries in if leb score now then member ∷ rest else rest

unfoldable pub without_members : List String → List (String × ℕ) → List (String × ℕ)
without_members members [] = []
without_members members ((member, score) ∷ retries) =
    let rest = without_members members retries in
    if elem str_eq member members then rest else (member, score) ∷ rest

-- Every entry has been idle long enough, and a read takes all that waits.
unfoldable pub redis_in_memory : RedisClient Store ℕ
unfolding without_id due_by without_members
redis_in_memory = record {
  ping = λ r. (ok tt, r);
  aclose = λ r. (ok tt, r);
  xgroup_create = λ _ _ r. (ok tt, r);
  xadd = λ _ fields r. (
    ok (show_int r.next_id),
    record r {
      waiting =
          r.waiting
          ++ record { message_id = show_int r.next_id; fields = fields; times_delivered = 0 } ∷ [];
      next_id = r.next_id + 1;
    },
  );
  zadd = λ _ member score r. (ok tt, record r { retries = (member, score) ∷ r.retries });
  eval_script = λ script r. let (found, r') = script r in (ok found, r');
  zrangebyscore = λ _ now _ r. due_by now r.retries;
  zrem = λ _ members r. record r { retries = without_members members r.retries };
  xreadgroup = λ _ _ stream _ _ r. (
    ok ((stream, map payload_of r.waiting) ∷ []),
    record r { waiting = []; pending = r.pending ++ map deliver r.waiting },
  );
  xpending_range = λ _ _ _ _ r. (
    ok (
        map (λ e. record { message_id = e.message_id; times_delivered = e.times_delivered })
          r.pending),
    r,
  );
  xclaim =
      λ _ _ _ _ _ r. (ok (map payload_of r.pending), record r { pending = map deliver r.pending });
  xack = λ _ _ id r. (ok tt, record r { pending = without_id id r.pending });
  xlen = λ _ r. (ok (length r.waiting + length r.pending), r);
  xpending = λ _ _ r. (ok (some (length r.pending)), r);
  zcard = λ _ r. (ok (length r.retries), r);
}
