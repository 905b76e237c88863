-- ===== src/Policy/Fields.antt =====
-- packages/policy/src/field-visibility-defaults.ts: who sees which field of a case.
pub mod Greatest
use etik_bildirim_platformu.Prelude.{
  Bool, ◌||◌, List, [], ◌∷◌, map, Eq, eq_by, ◌===◌, includes, if◌then◌else◌,
}
use etik_bildirim_platformu.Shared.Enums.{
  Role, council_secretary, council_chair, council_member, board_chair, rapporteur, action_owner,
  admin,
}

pub data CaseField : Type 0 where
  case_metadata report_text reporter_identity reporter_contact incident_date incident_location
        involved_persons witnesses attachments pre_research_notes rapporteur_report
        council_decision_draft council_decision_final action_letter action_response
        secure_messages :
      CaseField

pub data FieldVisibility : Type 0 where
  visible own_only metadata_only hidden : FieldVisibility

unfoldable pub FieldVisibility-discrete : Discrete FieldVisibility
FieldVisibility-discrete = hlevel

instance abbrev pub field_visibility_eq : Eq FieldVisibility
field_visibility_eq = eq_by FieldVisibility-discrete

-- `FIELD_VISIBILITY_DEFAULTS` and its lookup.
unfoldable pub get_field_visibility : Role → CaseField → FieldVisibility
get_field_visibility council_secretary case_metadata = visible
get_field_visibility council_secretary report_text = visible
get_field_visibility council_secretary reporter_identity = visible
get_field_visibility council_secretary reporter_contact = visible
get_field_visibility council_secretary incident_date = visible
get_field_visibility council_secretary incident_location = visible
get_field_visibility council_secretary involved_persons = visible
get_field_visibility council_secretary witnesses = visible
get_field_visibility council_secretary attachments = visible
get_field_visibility council_secretary pre_research_notes = visible
get_field_visibility council_secretary rapporteur_report = visible
get_field_visibility council_secretary council_decision_draft = visible
get_field_visibility council_secretary council_decision_final = visible
get_field_visibility council_secretary action_letter = visible
get_field_visibility council_secretary action_response = visible
get_field_visibility council_secretary secure_messages = visible
get_field_visibility council_chair case_metadata = visible
get_field_visibility council_chair report_text = visible
get_field_visibility council_chair reporter_identity = visible
get_field_visibility council_chair reporter_contact = hidden
get_field_visibility council_chair incident_date = visible
get_field_visibility council_chair incident_location = visible
get_field_visibility council_chair involved_persons = visible
get_field_visibility council_chair witnesses = visible
get_field_visibility council_chair attachments = visible
get_field_visibility council_chair pre_research_notes = visible
get_field_visibility council_chair rapporteur_report = visible
get_field_visibility council_chair council_decision_draft = visible
get_field_visibility council_chair council_decision_final = visible
get_field_visibility council_chair action_letter = visible
get_field_visibility council_chair action_response = visible
get_field_visibility council_chair secure_messages = hidden
get_field_visibility council_member case_metadata = visible
get_field_visibility council_member report_text = visible
get_field_visibility council_member reporter_identity = hidden
get_field_visibility council_member reporter_contact = hidden
get_field_visibility council_member incident_date = visible
get_field_visibility council_member incident_location = visible
get_field_visibility council_member involved_persons = visible
get_field_visibility council_member witnesses = hidden
get_field_visibility council_member attachments = visible
get_field_visibility council_member pre_research_notes = hidden
get_field_visibility council_member rapporteur_report = visible
get_field_visibility council_member council_decision_draft = visible
get_field_visibility council_member council_decision_final = visible
get_field_visibility council_member action_letter = visible
get_field_visibility council_member action_response = visible
get_field_visibility council_member secure_messages = hidden
get_field_visibility board_chair case_metadata = visible
get_field_visibility board_chair report_text = visible
get_field_visibility board_chair reporter_identity = hidden
get_field_visibility board_chair reporter_contact = hidden
get_field_visibility board_chair incident_date = visible
get_field_visibility board_chair incident_location = visible
get_field_visibility board_chair involved_persons = visible
get_field_visibility board_chair witnesses = visible
get_field_visibility board_chair attachments = visible
get_field_visibility board_chair pre_research_notes = visible
get_field_visibility board_chair rapporteur_report = visible
get_field_visibility board_chair council_decision_draft = hidden
get_field_visibility board_chair council_decision_final = visible
get_field_visibility board_chair action_letter = visible
get_field_visibility board_chair action_response = visible
get_field_visibility board_chair secure_messages = hidden
get_field_visibility rapporteur case_metadata = visible
get_field_visibility rapporteur report_text = visible
get_field_visibility rapporteur reporter_identity = hidden
get_field_visibility rapporteur reporter_contact = hidden
get_field_visibility rapporteur incident_date = visible
get_field_visibility rapporteur incident_location = visible
get_field_visibility rapporteur involved_persons = visible
get_field_visibility rapporteur witnesses = visible
get_field_visibility rapporteur attachments = visible
get_field_visibility rapporteur pre_research_notes = visible
get_field_visibility rapporteur rapporteur_report = own_only
get_field_visibility rapporteur council_decision_draft = hidden
get_field_visibility rapporteur council_decision_final = hidden
get_field_visibility rapporteur action_letter = hidden
get_field_visibility rapporteur action_response = hidden
get_field_visibility rapporteur secure_messages = hidden
get_field_visibility action_owner case_metadata = visible
get_field_visibility action_owner report_text = hidden
get_field_visibility action_owner reporter_identity = hidden
get_field_visibility action_owner reporter_contact = hidden
get_field_visibility action_owner incident_date = hidden
get_field_visibility action_owner incident_location = hidden
get_field_visibility action_owner involved_persons = hidden
get_field_visibility action_owner witnesses = hidden
get_field_visibility action_owner attachments = hidden
get_field_visibility action_owner pre_research_notes = hidden
get_field_visibility action_owner rapporteur_report = hidden
get_field_visibility action_owner council_decision_draft = hidden
get_field_visibility action_owner council_decision_final = hidden
get_field_visibility action_owner action_letter = own_only
get_field_visibility action_owner action_response = own_only
get_field_visibility action_owner secure_messages = hidden
get_field_visibility admin case_metadata = metadata_only
get_field_visibility admin report_text = hidden
get_field_visibility admin reporter_identity = hidden
get_field_visibility admin reporter_contact = hidden
get_field_visibility admin incident_date = hidden
get_field_visibility admin incident_location = hidden
get_field_visibility admin involved_persons = hidden
get_field_visibility admin witnesses = hidden
get_field_visibility admin attachments = hidden
get_field_visibility admin pre_research_notes = hidden
get_field_visibility admin rapporteur_report = hidden
get_field_visibility admin council_decision_draft = hidden
get_field_visibility admin council_decision_final = hidden
get_field_visibility admin action_letter = hidden
get_field_visibility admin action_response = hidden
get_field_visibility admin secure_messages = hidden

unfoldable pub is_field_visible : Role → CaseField → Bool
unfolding get_field_visibility FieldVisibility-discrete
is_field_visible role field =
    get_field_visibility role field === visible || get_field_visibility role field === metadata_only

abbrev pub greatest_of : List FieldVisibility → FieldVisibility
greatest_of visibilities =
    if includes visible visibilities
    then visible
    else (if includes own_only visibilities
        then own_only
        else (if includes metadata_only visibilities then metadata_only else hidden))

unfoldable pub resolve_field_visibility_for_roles : List Role → CaseField → FieldVisibility
unfolding get_field_visibility
resolve_field_visibility_for_roles [] field = hidden
resolve_field_visibility_for_roles (role ∷ roles) field =
    greatest_of (map (λ r. get_field_visibility r field) (role ∷ roles))
