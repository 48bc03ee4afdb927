-- ===== src/Control/Requests.antt =====
-- control.go: `normalizeRequest`, which the client applies before it sends and the server again.
use wa_agent_pipeline.Base.{◌≡◌, ◌⊎◌, arith}
use wa_agent_pipeline.Base.Int.{ℤ, pos, ◌≤ℤ◌}
use wa_agent_pipeline.Texts.Trim.{trim_space_idem}
use wa_agent_pipeline.Control.{Request, normalize_request, default_chunk_size, cap_limit}

cap_limit_bounds : (n : ℤ) → (pos 1 ≤ℤ cap_limit n) × (cap_limit n ≤ℤ default_chunk_size)
cap_limit_bounds n = ground arith

cap_limit_id : (n : ℤ) → pos 1 ≤ℤ n → n ≤ℤ default_chunk_size → cap_limit n ≡ n
cap_limit_id n h k = ground arith

cap_limit_cases :
    (n : ℤ)
    → ((pos 1 ≤ℤ n) × (n ≤ℤ default_chunk_size) × (cap_limit n ≡ n))
      ⊎ ((¬ ((pos 1 ≤ℤ n) × (n ≤ℤ default_chunk_size))) × (cap_limit n ≡ default_chunk_size))
cap_limit_cases n = ground arith

-- A normalized request asks for 1 to 50 messages: for as many as the request did where that number
-- is in this range, and for 50 where it is not. To normalize it again changes nothing.
pub normalize_request_lem :
    (r : Request)
    → (pos 1 ≤ℤ (normalize_request r).limit)
      × ((normalize_request r).limit ≤ℤ default_chunk_size)
      × (((pos 1 ≤ℤ r.limit)
            × (r.limit ≤ℤ default_chunk_size)
            × ((normalize_request r).limit ≡ r.limit))
          ⊎ ((¬ ((pos 1 ≤ℤ r.limit) × (r.limit ≤ℤ default_chunk_size)))
              × ((normalize_request r).limit ≡ default_chunk_size)))
      × (normalize_request (normalize_request r) ≡ normalize_request r)
unfolding normalize_request
normalize_request_lem r =
    let (low, high) = cap_limit_bounds r.limit in
    (
      low,
      high,
      cap_limit_cases r.limit,
      cc (
        trim_space_idem r.op,
        trim_space_idem r.chat_jid,
        trim_space_idem r.tenant,
        trim_space_idem r.anchor_msg_id,
        cap_limit_id (cap_limit r.limit) low high,
      ),
    )
