-- ===== src/Protocol/Tests.antt =====
-- Usage counters and stop reasons on small inputs.
use kyora.Base.{ℕ, ◌≡◌, refl, codes, text_eq}
use kyora.Base.Words.{add64}
use kyora.Protocol.Counters.{Usage, total, add, total-add}
use kyora.Protocol.Stop.{StopReason, serialize, deserialize, serialize-deserialize}

used : ℕ → Usage
used n = record {
  input_tokens = n;
  output_tokens = 20;
  cache_creation_input_tokens = 3;
  cache_read_input_tokens = 4;
}

total-add_example :
    total (add (used 1) (used 18_446_744_073_709_551_615))
    ≡ add64 (total (used 1)) (total (used 18_446_744_073_709_551_615))
total-add_example = total-add (used 1) (used 18_446_744_073_709_551_615)

reads_pause : deserialize (codes "pause_turn") ≡ StopReason.pause_turn
unfolding deserialize text_eq
reads_pause = refl

serialize-deserialize_example : serialize (deserialize (codes "pause_turn")) ≡ codes "pause_turn"
serialize-deserialize_example = serialize-deserialize (codes "pause_turn")
