-- ===== src/Review.antt =====
-- domain/reviews.py: ReviewPackage, ReviewRecord and Communication, with their enums of
-- domain/enums.py. `hash` is text_hash (SHA-256), `render` is `str` on values that are no strings.
pub mod Enums
pub mod Sending
pub mod Lifecycle
mod Examples
use legal_workbench.Prelude.{
  is_text, ℕ, ◌+◌, ◌≡◌, refl, Bool, true, false, not, ◌&&◌, ◌||◌, Option, none, some, List, [], ◌∷◌,
  Text, text, strip, is_falsy, is_blank, is_empty, DateTime, utc_now, Result, ok, err, ◌>>=◌, ◌>>◌,
  raise_if, domain_validation, entity_version_conflict, invalid_state_transition, eq, ◌==◌,
  if◌then◌else◌, contains, nat_eq, text_eq, text_beq_iff, ap,
}
use legal_workbench.Prelude.Values.{Value, Dict, get, str_or_empty}
use legal_workbench.Review.Enums.{
  ReviewPackageType, external_message, ReviewPackageStatus, draft, pending_review, approved,
  rejected, needs_information, ReviewDecision, approve, approve_with_edits, reject, ask_information,
  CommunicationStatus, queued, CommunicationChannel, feishu, type_eq, package_status_eq,
  decision_eq,
}

pub record ReviewPackage : Type 0 where
  pub id : ℕ
  pub matter_id : ℕ
  pub package_type : ReviewPackageType
  pub title : Text
  pub background : Text
  pub confirmed_facts : List Dict
  pub unconfirmed_facts : List Dict
  pub reasoning : Text
  pub risks : List Dict
  pub alternatives : List Dict
  pub citations : List Dict
  pub proposed_content : Text
  pub target : Dict
  pub created_by : Text
  pub work_item_id : Option ℕ
  pub grounding_payload : Dict
  pub status : ReviewPackageStatus
  pub submitted_at : Option DateTime
  pub approved_content_hash : Option Text
  pub version : ℕ

-- The arguments of ReviewPackage.create.
pub record NewPackage : Type 0 where
  pub matter_id : ℕ
  pub work_item_id : Option ℕ
  pub package_type : ReviewPackageType
  pub title : Text
  pub background : Text
  pub confirmed_facts : List Dict
  pub unconfirmed_facts : List Dict
  pub reasoning : Text
  pub risks : List Dict
  pub alternatives : List Dict
  pub citations : List Dict
  pub proposed_content : Text
  pub target : Dict
  pub created_by : Text
  pub grounding_payload : Option Dict

abbrev dict_or_empty : Option Dict → Dict
dict_or_empty none = []
dict_or_empty (some d) = d

-- An external message names neither a message to reply to nor a receiver.
unfoldable pub unaddressed : (Value → Text) → Dict → Bool
unaddressed render target =
    is_blank (str_or_empty render (get target (text "replyToMessageId")))
    && is_blank (str_or_empty render (get target (text "receiveId")))

unfoldable pub create : (Value → Text) → ℕ → NewPackage → Result ReviewPackage
create render id n = do
  raise_if (is_blank n.title || is_blank n.background || is_blank n.reasoning) domain_validation
  raise_if (is_blank n.proposed_content) domain_validation
  raise_if (is_empty n.target) domain_validation
  raise_if (eq n.package_type external_message && unaddressed render n.target) domain_validation
  ok (record {
    id = id;
    matter_id = n.matter_id;
    package_type = n.package_type;
    title = strip n.title;
    background = strip n.background;
    confirmed_facts = n.confirmed_facts;
    unconfirmed_facts = n.unconfirmed_facts;
    reasoning = strip n.reasoning;
    risks = n.risks;
    alternatives = n.alternatives;
    citations = n.citations;
    proposed_content = strip n.proposed_content;
    target = n.target;
    created_by = n.created_by;
    work_item_id = n.work_item_id;
    grounding_payload = dict_or_empty n.grounding_payload;
    status = draft;
    submitted_at = none;
    approved_content_hash = none;
    version = 1;
  })

unfoldable pub submit : ReviewPackage → ℕ → ℕ → Result ReviewPackage
submit p expected_version clock = do
  raise_if (not (eq p.version expected_version)) entity_version_conflict
  raise_if (not (eq p.status draft)) invalid_state_transition
  ok (record p { status = pending_review; submitted_at = some (utc_now clock) })

-- `(content or fallback)`
abbrev pub content_or : Option Text → Text → Text
content_or none fallback = fallback
content_or (some t) fallback = if is_empty t then fallback else t

-- `decision in {APPROVED, APPROVED_WITH_EDITS}`
abbrev pub approves : ReviewDecision → Bool
approves d = contains (approve ∷ approve_with_edits ∷ []) d

module _ (hash : Text → Text) where
  -- The package after the review, and the approved content.
  unfoldable pub apply_review :
      ReviewPackage → ReviewDecision → Option Text → ℕ → Result (ReviewPackage × Option Text)
  apply_review p decision final_content expected_version = do
    raise_if (not (eq p.version expected_version)) entity_version_conflict
    raise_if (not (eq p.status pending_review)) invalid_state_transition
    let content = strip (content_or final_content p.proposed_content)
    raise_if (approves decision && is_empty content) domain_validation
    ok (
        if approves decision
        then (
          record p { status = approved; approved_content_hash = some (hash content) },
          some content,
        )
        else if eq decision reject
        then (record p { status = rejected }, none)
        else (record p { status = needs_information }, none))

pub record ReviewRecord : Type 0 where
  pub id : ℕ
  pub review_package_id : ℕ
  pub reviewer_id : Text
  pub decision : ReviewDecision
  pub comments : Option Text
  pub final_content : Option Text
  pub final_content_hash : Option Text
  pub change_summary : List Dict
  pub reusable_as_example : Bool
  pub reviewed_at : DateTime

pub record Communication : Type 0 where
  pub id : ℕ
  pub matter_id : ℕ
  pub review_package_id : ℕ
  pub review_record_id : ℕ
  pub channel : CommunicationChannel
  pub target : Dict
  pub content : Text
  pub content_hash : Text
  pub status : CommunicationStatus
  pub requested_by : Text
  pub correlation_id : Text
  pub work_item_id : Option ℕ
  pub external_message_id : Option Text
  pub attempts : ℕ
  pub last_error : Option Text
  pub queued_at : Option DateTime
  pub sent_at : Option DateTime
  pub version : ℕ

module _ (hash : Text → Text) where
  unfoldable pub create_from_approved_review :
      ℕ → ReviewPackage → ReviewRecord → (actor_id correlation_id : Text) → ℕ → Result Communication
  create_from_approved_review id p r actor_id correlation_id clock = do
    raise_if (not (eq p.status approved)) invalid_state_transition
    raise_if (not (approves r.decision)) invalid_state_transition
    let content = strip (content_or r.final_content p.proposed_content)
    let digest = hash content
    raise_if (not (is_text p.approved_content_hash digest)) invalid_state_transition
    ok (record {
      id = id;
      matter_id = p.matter_id;
      review_package_id = p.id;
      review_record_id = r.id;
      channel = feishu;
      target = p.target;
      content = content;
      content_hash = digest;
      status = queued;
      requested_by = actor_id;
      correlation_id = correlation_id;
      work_item_id = p.work_item_id;
      external_message_id = none;
      attempts = 0;
      last_error = none;
      queued_at = some (utc_now clock);
      sent_at = none;
      version = 1;
    })
