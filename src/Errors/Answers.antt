-- ===== src/Errors/Answers.antt =====
-- What a remote caller can see of an error.
use update_delivery_system.Prelude.{ℕ, ◌≡◌, arith}
use update_delivery_system.Errors.{UdsError, into_response}

-- Two errors that are both answered with status 500 have the same answer in every part: the text of
-- an internal failure never reaches the caller.
pub into_response_hides_internal :
    (error_id : ℕ) (e f : UdsError)
    → (into_response error_id e).status ≡ 500
    → (into_response error_id f).status ≡ 500
    → into_response error_id e ≡ into_response error_id f
unfolding into_response
into_response_hides_internal i e f h k = ground arith
