-- ===== src/ServiceStore/Samples.antt =====
-- A small history of the store, on which the theorems are applied: a root is submitted, claimed,
-- and ends in one of several ways.
use Prim.Native.String.{len, ◌++◌ as append}
use text.Mathlib.TextPositions.{len-append}
use dependecy_graph_auditor.Prelude.{
  true, ℕ, zero, suc, ◌≡◌, refl, ap, ◌∙◌, String, str_eq, eq_iff, Bool, false, none, [], ◌∷◌, arith,
  Bool-cases, inl, inr,
}
use dependecy_graph_auditor.Job.{Submission, HandlerResult}
use dependecy_graph_auditor.ServiceStore.Tables.{Services}

abbrev pub nth_uuid : ℕ → String
nth_uuid zero = "u"
nth_uuid (suc n) = append "u" (nth_uuid n)

pub len-nth_uuid : (n : ℕ) → len (nth_uuid n) ≡ suc n
len-nth_uuid zero = refl
len-nth_uuid (suc n) = len-append "u" (nth_uuid n) ∙ rw (len-nth_uuid n) (omega arith)

pub nth_uuid-injective : (m n : ℕ) → nth_uuid m ≡ nth_uuid n → m ≡ n
nth_uuid-injective m n e =
    let same : len (nth_uuid m) ≡ len (nth_uuid n) = ap len e in
    omega (arith, same, len-nth_uuid m, len-nth_uuid n)

pub nth_uuid-present : (n : ℕ) → str_eq (nth_uuid n) "" ≡ false
nth_uuid-present n = elim (Bool-cases (str_eq (nth_uuid n) "")) [
  | inl empty ↦
      let same : len (nth_uuid n) ≡ 0 = ap len ((eq_iff (nth_uuid n) "").0 empty) in
      absurd (omega (arith, same, len-nth_uuid n))
  | inr present ↦ present
]

abbrev pub sample_services : Services
sample_services = record {
  new_uuid = nth_uuid;
  request_digest = λ job_type limit payload. append job_type payload;
  decode_child = λ payload. none;
  decode_audit = λ result. none;
  is_json = λ text. true;
  decode_update = λ result. none;
  audit_summary = λ root total violations failed. "summary";
  text_lt = λ a b. false;
  uuid_present = nth_uuid-present;
  uuid_injective = nth_uuid-injective;
}

abbrev pub keyed_submission : Submission
keyed_submission = record {
  job_type = "audit_npm_package";
  payload = "{}";
  max_attempts = 1;
  idempotency_key = "k";
  request_hash = "";
  root_job_id = "";
  parent_job_id = "";
  internal = false;
  retried_from_job_id = "";
  replayed_from_job_id = "";
}

abbrev pub child_result : HandlerResult
child_result = record {
  result = "";
  children = record keyed_submission { idempotency_key = "child" } ∷ [];
}

abbrev pub plain_result : HandlerResult
plain_result = record { result = ""; children = [] }

abbrev pub unlocked : String → Bool
unlocked id = false
