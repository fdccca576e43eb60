-- ===== src/Tests/SubmitterExamples.antt =====
-- The theorems on the submitter, with a node and a signer that always answer.
use circle_wallet_service.Prelude.{refl, ℕ, ◌≡◌, true, false, none, some, [], ◌∷◌, String, ◌⊎◌, ok}
use circle_wallet_service.Submitter.{World}
use circle_wallet_service.Submitter.Remote.{Remote}
use circle_wallet_service.Submitter.Prepare.{Settings, SignedItem}
use circle_wallet_service.Submitter.Submit.{submit_signed}
use circle_wallet_service.Submitter.Submit.Broadcasts.{
  Posted, submit_signed_posts, submit_signed_live,
}
use circle_wallet_service.GoMap.{lookup, insert}
use circle_wallet_service.Memory.{new_memory_store, create}
use circle_wallet_service.MemoryQueue.Invariant.{run, step, run-IsWell, new-IsWell, creates}
use circle_wallet_service.Tests.Samples.{held, flying}

abbrev pub sandbox : Remote
sandbox = record {
  Address = String;
  Payload = String;
  Entry = String;
  RawTxn = ℕ;
  Auth = String;
  Signed = ℕ;
  AccountInfo = ℕ;
  resolve = λ _. ok "pk";
  verify_wallet = λ _ _. none;
  unmarshal = ok;
  build_entry = λ _ p. ok p;
  parse_address = ok;
  build = λ _ _ _ _ seq. ok seq;
  simulate =
      λ _ _ _. ok (record { success = true; vm_status = "Executed successfully"; gas_used = 10 });
  rebuild = λ _ _ _ _ seq. ok seq;
  sign = λ _ _ _. ok "sig";
  assemble = λ raw _ _. some raw;
  hash = λ _. ok "0xhash";
  submit = λ _. ok "0xhash";
  account = λ _. ok 4;
  sequence_number = ok;
}

abbrev pub settings : Settings
settings = record {
  max_retry_duration = 1000;
  simulate_before_submit = true;
  calibrate_gas = false;
}

abbrev now : World
now = record { clock = 40; store = flying; faults = []; notified = []; broadcasts = [] }

abbrev item : SignedItem ℕ
item = record { rec = held; signed_txn = 4; seq_num = 4; hash = "0xhash" }

submit_signed_posts_example :
    ((submit_signed sandbox settings item now).1.broadcasts ≡ [])
    ⊎ Posted sandbox settings item now (submit_signed sandbox settings item now)
submit_signed_posts_example = submit_signed_posts sandbox settings item now

abbrev alone : World
alone = record now { store = run (creates 60 held ∷ []) (new_memory_store 1000) }

is_processing :
    lookup "t3" alone.store.records ≡ some (record held { created_at = 60; updated_at = 60 })
unfolding run step create new_memory_store lookup insert
is_processing = refl

submit_signed_live_example :
    (submit_signed sandbox settings item alone).1.broadcasts
    ≡ record { id = "t3"; seq = 4; hash = "0xhash" } ∷ []
submit_signed_live_example =
    submit_signed_live sandbox settings item (record held { created_at = 60; updated_at = 60 })
      alone (run-IsWell (creates 60 held ∷ []) (new_memory_store 1000) (new-IsWell 1000)).indexed
      refl is_processing refl refl
