-- ===== src/Executor/Info.antt =====
-- INFO of src/commandExecutor.cpp: the sections that it knows, the sums over the shards, and its text.
use tinycache.Prelude.{ite, List, [], ◌∷◌, ◌++◌, Bool, true, false}
use tinycache.Prelude.Bytes.{Bytes, codes, bytes_discrete, add64}
use tinycache.Resp.{RespType, RespValue, resp, text}
use tinycache.Resp.Decimal.{format}
use tinycache.Shard.{Stats}
use tinycache.Command.{to_uppercase}
use tinycache.Executor.{error_answer}

-- Whether INFO knows the section, which is `DEFAULT` if none is named.
unfoldable pub knows_section : List Bytes → Bool
knows_section [] = true
knows_section (name ∷ args) = ite (bytes_discrete (to_uppercase name) (codes "DEFAULT")) true (
    ite (bytes_discrete (to_uppercase name) (codes "MEMORY")) true
      (ite (bytes_discrete (to_uppercase name) (codes "ALL")) true false))

abbrev pub unsupported_section : RespValue
unsupported_section = error_answer (codes "ERR unsupported INFO section")

abbrev pub no_stats : Stats
no_stats = record {
  used_payload_bytes = 0;
  key_count = 0;
  evictions = 0;
  expired = 0;
  max_memory_bytes = 0;
}

-- The sums after one more shard.
unfoldable pub add_stats : Stats → Stats → Stats
add_stats sums shard = record {
  used_payload_bytes = add64 sums.used_payload_bytes shard.used_payload_bytes;
  key_count = add64 sums.key_count shard.key_count;
  evictions = add64 sums.evictions shard.evictions;
  expired = add64 sums.expired shard.expired;
  max_memory_bytes = add64 sums.max_memory_bytes shard.max_memory_bytes;
}

abbrev crlf : Bytes
crlf = 13 ∷ 10 ∷ []

unfoldable pub info_text : Stats → Bytes
info_text sums =
    codes "# Memory"
    ++ (crlf
        ++ (codes "used_bytes:"
            ++ (format sums.used_payload_bytes
                ++ (crlf
                    ++ (codes "keys:"
                        ++ (format sums.key_count
                            ++ (crlf
                                ++ (codes "evictions:"
                                    ++ (format sums.evictions
                                        ++ (crlf
                                            ++ (codes "expired:"
                                                ++ (format sums.expired
                                                    ++ (crlf
                                                        ++ (codes "max_memory_bytes:"
                                                            ++ (format sums.max_memory_bytes
                                                            ++ (crlf
                                                            ++ (codes "memory_model:payload_bytes"
                                                            ++ crlf)))))))))))))))))

unfoldable pub info_answer : Stats → RespValue
unfolding info_text
info_answer sums = resp RespType.bulk_string (text (info_text sums))
