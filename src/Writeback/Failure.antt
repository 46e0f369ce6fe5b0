-- ===== src/Writeback/Failure.antt =====
-- src/mailbox-writeback/domain/value-objects/writeback-failure-reason.ts
use Prim.Native.Char.{code}
use Prim.Native.String.{◌∷◌, ◌++◌}
use volunteer_training.Prelude.Text.{decimal}
use volunteer_training.Prelude.{
  ℕ, Bool, true, false, ◌&&◌, ◌||◌, Option, none, some, String, leb, nat_beq, if◌then◌else◌, ◌===◌,
  string_eq,
}

pub data FailureReasonType : Type 0 where
  rate_limited auth_revoked message_deleted platform_error unknown : FailureReasonType

pub record WritebackFailureReason : Type 0 where
  pub type : FailureReasonType
  pub message : String
  pub retryable : Bool

-- The white space and line ends that `trim` removes.
abbrev is_space : ℕ → Bool
is_space c =
    (leb 9 c && leb c 13)
    || nat_beq c 32
    || nat_beq c 0xa0
    || nat_beq c 0x1680
    || (leb 0x2000 c && leb c 0x200a)
    || nat_beq c 0x2028
    || nat_beq c 0x2029
    || nat_beq c 0x202f
    || nat_beq c 0x205f
    || nat_beq c 0x3000
    || nat_beq c 0xfeff

-- `trim` of a text that begins with no white space.
trim_end : String → String
trim_end String.[] = ""
trim_end (String.◌∷◌ c s) =
    let rest = trim_end s in if rest === "" && is_space (code c) then "" else c ∷ rest

-- The header `retry-after` counts when it is there and not empty.
unfoldable pub rate_limited_reason : Option String → WritebackFailureReason
unfolding trim_end
rate_limited_reason none = record {
  type = rate_limited;
  message = trim_end "Rate limit exceeded ";
  retryable = true;
}
rate_limited_reason (some after) =
    let retry_after = if after === "" then "" else "retry after " ++ after in
    record {
      type = rate_limited;
      message = trim_end ("Rate limit exceeded " ++ retry_after);
      retryable = true;
    }

unfoldable pub auth_revoked_reason : WritebackFailureReason
auth_revoked_reason = record {
  type = auth_revoked;
  message = "OAuth token revoked or expired";
  retryable = false;
}

unfoldable pub message_deleted_reason : WritebackFailureReason
message_deleted_reason = record {
  type = message_deleted;
  message = "Message no longer exists on platform";
  retryable = false;
}

unfoldable pub platform_error_reason : ℕ → String → WritebackFailureReason
unfolding decimal
platform_error_reason status message = record {
  type = platform_error;
  message = decimal status ++ (": " ++ message);
  retryable = leb 500 status || nat_beq status 429;
}

unfoldable pub unknown_reason : String → WritebackFailureReason
unknown_reason message = record { type = unknown; message = message; retryable = true }
