-- ===== src/Database.antt =====
-- The rows that the services read and write (prisma/schema.prisma, through the `select`s of
-- apps/api/src). Ids are compared for equality only, and are numbers. A row holds the row that a
-- foreign key of it names, where a service reads that row with it.
use Prim.Native.String.{String}
use makeup_booking_system.Base.{ℕ, Bool, true, false, Option, none, some, List, ◌==◌}
use makeup_booking_system.Shift.Definition.{ShiftDefinition}

-- A text, as its UTF-16 code units.
abbrev pub Text : Type 0
Text = List ℕ

-- 'ACTIVE' and 'INACTIVE', of a site or an employment
pub data ActiveStatus : Type 0 where
  active inactive : ActiveStatus

abbrev pub is_active : ActiveStatus → Bool
is_active active = true
is_active inactive = false

pub data QualificationStatus : Type 0 where
  qualification_active qualification_cancelled : QualificationStatus

pub record Site : Type 0 where
  pub id : ℕ
  pub name : String
  pub status : ActiveStatus

pub record ArtistProfile : Type 0 where
  pub id : ℕ
  pub nickname : String
  pub employment_status : ActiveStatus
  pub site : Site
  pub user_id : Option ℕ

pub record HostProfile : Type 0 where
  pub id : ℕ
  pub host_code : String
  pub nickname : Option String
  pub real_name : String
  pub qualification_status : QualificationStatus
  pub qualification_valid_until : Option ℕ
  pub site : Site
  pub user_id : Option ℕ

pub record OperatorProfile : Type 0 where
  pub id : ℕ
  pub real_name : String
  pub employment_status : ActiveStatus
  pub site_id : ℕ
  pub user_id : Option ℕ

pub record HostOperatorRelation : Type 0 where
  pub host_id : ℕ
  pub operator : OperatorProfile
  pub valid_from : ℕ
  pub valid_until : Option ℕ

pub record ArtistShiftTemplate : Type 0 where
  pub id : ℕ
  pub artist_id : ℕ
  pub definition : ShiftDefinition
  pub valid_from : ℕ
  pub valid_until : Option ℕ
  pub version_no : ℕ

pub data AppointmentType : Type 0 where
  single fixed : AppointmentType

-- What is stored of an appointment that an absence affects. An instant stands for its text.
pub record AffectedAppointmentSummary : Type 0 where
  pub appointment_date : ℕ
  pub appointment_type : AppointmentType
  pub end_at : ℕ
  pub host_code : String
  pub host_id : ℕ
  pub host_name : String
  pub id : ℕ
  pub start_at : ℕ

-- The status of a leave and of an unavailable period.
pub data AbsenceStatus : Type 0 where
  absence_active absence_pending absence_rejected absence_cancelled : AbsenceStatus

abbrev pub is_absence_active : AbsenceStatus → Bool
is_absence_active absence_active = true
is_absence_active absence_pending = false
is_absence_active absence_rejected = false
is_absence_active absence_cancelled = false

-- The status of an absence that is not settled: active or pending.
abbrev pub is_absence_open : AbsenceStatus → Bool
is_absence_open absence_active = true
is_absence_open absence_pending = true
is_absence_open absence_rejected = false
is_absence_open absence_cancelled = false

abbrev pub is_absence_pending : AbsenceStatus → Bool
is_absence_pending absence_active = false
is_absence_pending absence_pending = true
is_absence_pending absence_rejected = false
is_absence_pending absence_cancelled = false

-- A review impact that is null is read as the empty list. `subjectType` is 'ARTIST' where `artist_id` is present, and 'HOST' where `host_id` is.
pub record LeaveRecord : Type 0 where
  pub id : ℕ
  pub artist_id : Option ℕ
  pub host_id : Option ℕ
  pub start_date : ℕ
  pub end_date : ℕ
  pub reason : Option Text
  pub status : AbsenceStatus
  pub affected_appointment_count : ℕ
  pub row_version : ℕ
  pub created_by_user_id : ℕ
  pub reviewed_at : Option ℕ
  pub reviewed_by_user_id : Option ℕ
  pub review_comment : Option Text
  pub review_impact_snapshot : List AffectedAppointmentSummary
  pub cancelled_at : Option ℕ
  pub cancelled_by_user_id : Option ℕ
  pub cancellation_reason : Option Text

pub record ArtistUnavailablePeriod : Type 0 where
  pub id : ℕ
  pub artist_id : ℕ
  pub site_id : ℕ
  pub unavailable_date : ℕ
  pub start_minute : ℕ
  pub end_minute : ℕ
  pub reason : Text
  pub status : AbsenceStatus
  pub affected_appointment_count : ℕ
  pub row_version : ℕ
  pub created_by_user_id : ℕ
  pub reviewed_at : Option ℕ
  pub reviewed_by_user_id : Option ℕ
  pub review_comment : Option Text
  pub review_impact_snapshot : List AffectedAppointmentSummary
  pub cancelled_at : Option ℕ
  pub cancelled_by_user_id : Option ℕ
  pub cancellation_reason : Option Text

-- The status of a request that is reviewed: of an overtime and of a fixed appointment request.
pub data RequestStatus : Type 0 where
  pending approved rejected withdrawn : RequestStatus

abbrev pub is_pending : RequestStatus → Bool
is_pending pending = true
is_pending approved = false
is_pending rejected = false
is_pending withdrawn = false

abbrev pub is_approved : RequestStatus → Bool
is_approved pending = false
is_approved approved = true
is_approved rejected = false
is_approved withdrawn = false

-- `definition` has no workdays of its own.
pub record ArtistOvertime : Type 0 where
  pub id : ℕ
  pub artist_id : ℕ
  pub break_end_minute : Option ℕ
  pub break_start_minute : Option ℕ
  pub work_end_minute : ℕ
  pub work_start_minute : ℕ
  pub overtime_date : ℕ
  pub reason : Text
  pub site_id : ℕ
  pub status : RequestStatus
  pub affected_appointment_count : ℕ
  pub row_version : ℕ
  pub submitted_at : ℕ
  pub submitted_by_user_id : ℕ
  pub review_comment : Option Text
  pub reviewed_at : Option ℕ
  pub reviewed_by_user_id : Option ℕ

pub data AppointmentStatus : Type 0 where
  booked cancelled completed : AppointmentStatus

-- `ACTIVE_STATUSES`
abbrev pub is_occupying : AppointmentStatus → Bool
is_occupying booked = true
is_occupying cancelled = false
is_occupying completed = true

abbrev pub is_booked : AppointmentStatus → Bool
is_booked booked = true
is_booked cancelled = false
is_booked completed = false

abbrev pub is_cancelled : AppointmentStatus → Bool
is_cancelled booked = false
is_cancelled cancelled = true
is_cancelled completed = false

pub data CreatorRole : Type 0 where
  created_by_host created_by_operator created_by_artist : CreatorRole
  created_by_customer_service created_by_admin created_by_system : CreatorRole

pub data CancellationReasonCode : Type 0 where
  backoffice_cancelled user_cancelled rescheduled artist_leave host_leave : CancellationReasonCode

-- `cancellationSourceType` and `cancellationSourceId`, which are both null or both not.
pub data CancellationSource : Type 0 where
  appointment_source leave_record_source unavailable_period_source : ℕ → CancellationSource

abbrev pub is_leave_source : ℕ → Option CancellationSource → Bool
is_leave_source id none = false
is_leave_source id (some (appointment_source other)) = false
is_leave_source id (some (leave_record_source leave_id)) = leave_id == id
is_leave_source id (some (unavailable_period_source other)) = false

abbrev pub is_artist_leave : Option CancellationReasonCode → Bool
is_artist_leave none = false
is_artist_leave (some backoffice_cancelled) = false
is_artist_leave (some user_cancelled) = false
is_artist_leave (some rescheduled) = false
is_artist_leave (some artist_leave) = true
is_artist_leave (some host_leave) = false

pub record Appointment : Type 0 where
  pub id : ℕ
  pub appointment_date : ℕ
  pub appointment_type : AppointmentType
  pub artist_id : ℕ
  pub artist_nickname_snapshot : String
  pub created_by_role : CreatorRole
  pub created_by_user_id : Option ℕ
  pub daily_sequence : ℕ
  pub duration_minutes : ℕ
  pub end_at : ℕ
  pub fixed_rule_id : Option ℕ
  pub host_code_snapshot : String
  pub host_id : ℕ
  pub host_name_snapshot : String
  pub operator_id_at_booking : Option ℕ
  pub operator_name_snapshot : Option String
  pub rescheduled_from_appointment_id : Option ℕ
  pub site_id : ℕ
  pub site_name_snapshot : String
  pub start_at : ℕ
  pub status : AppointmentStatus
  pub row_version : ℕ
  pub cancellation_reason_code : Option CancellationReasonCode
  pub cancellation_reason_text : Option Text
  pub cancellation_source : Option CancellationSource
  pub cancelled_at : Option ℕ
  pub cancelled_by_user_id : Option ℕ
  pub completed_at : Option ℕ

pub data FixedRuleStatus : Type 0 where
  rule_active rule_ended : FixedRuleStatus

abbrev pub is_rule_active : FixedRuleStatus → Bool
is_rule_active rule_active = true
is_rule_active rule_ended = false

-- The weekdays of a rule are rows of their own.
pub record FixedAppointmentRule : Type 0 where
  pub id : ℕ
  pub artist_id : ℕ
  pub artist_nickname : String
  pub duration_minutes : ℕ
  pub host : HostProfile
  pub host_id : ℕ
  pub site_id : ℕ
  pub start_minute : ℕ
  pub status : FixedRuleStatus
  pub valid_from : ℕ
  pub valid_until : Option ℕ

-- One weekday of a fixed appointment rule.
pub record FixedAppointmentRuleWeekday : Type 0 where
  pub rule_id : ℕ
  pub artist_id : ℕ
  pub host_id : ℕ
  pub iso_weekday : ℕ
  pub start_minute : ℕ
  pub end_minute : ℕ
  pub valid_from : ℕ
  pub valid_until : Option ℕ

pub record FixedAppointmentRequest : Type 0 where
  pub host_id : ℕ
  pub effective_from : ℕ
  pub status : RequestStatus
  pub target_artist_id : Option ℕ
  pub target_duration_minutes : Option ℕ
  pub target_start_minute : Option ℕ
  pub target_weekdays : List ℕ

pub data IdempotencyScope : Type 0 where
  appointment_create appointment_reschedule : IdempotencyScope

-- `resource_is_appointment`: `resourceType` is 'APPOINTMENT'.
pub record IdempotencyRecord : Type 0 where
  pub user_id : ℕ
  pub scope : IdempotencyScope
  pub idempotency_key : Text
  pub expires_at : ℕ
  pub request_hash : ℕ
  pub resource_is_appointment : Bool
  pub resource_id : Option ℕ

pub data AuditAction : Type 0 where
  appointment_created appointment_created_by_reschedule appointment_cancelled : AuditAction
  appointment_reschedule_source_cancelled fixed_appointment_generated : AuditAction
  artist_overtime_submitted artist_overtime_directly_approved artist_overtime_withdrawn :
      AuditAction
  artist_overtime_approved artist_overtime_rejected : AuditAction
  artist_unavailable_period_submitted artist_unavailable_period_created : AuditAction
  artist_unavailable_period_approved artist_unavailable_period_rejected : AuditAction
  artist_unavailable_period_cancelled leave_created leave_cancelled : AuditAction
  artist_leave_submitted artist_leave_approved artist_leave_rejected : AuditAction
  fixed_appointment_restored_after_leave_cancel : AuditAction

pub record AuditEntry : Type 0 where
  pub action : AuditAction
  pub actor_user_id : Option ℕ
  pub object_id : ℕ
  pub reason : Option Text
  pub site_id : ℕ

-- The tables.
pub record Database : Type 0 where
  pub artists : List ArtistProfile
  pub hosts : List HostProfile
  pub operator_relations : List HostOperatorRelation
  pub shift_templates : List ArtistShiftTemplate
  pub leave_records : List LeaveRecord
  pub unavailable_periods : List ArtistUnavailablePeriod
  pub overtimes : List ArtistOvertime
  pub appointments : List Appointment
  pub rules : List FixedAppointmentRule
  pub rule_weekdays : List FixedAppointmentRuleWeekday
  pub fixed_requests : List FixedAppointmentRequest
  pub idempotency_records : List IdempotencyRecord
  pub audit_logs : List AuditEntry
