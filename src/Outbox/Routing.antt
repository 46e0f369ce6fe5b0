-- ===== src/Outbox/Routing.antt =====
-- src/queue/event-routing.ts: the queues, and the queues of each event.
use volunteer_training.Prelude.{Option, List, [], ◌∷◌, String, lookup, string_eq}

-- `QueueName`
pub data QueueName : Type 0 where
  mailbox_ingestion classification contact_graph threat_detection prioritization : QueueName
  mailbox_writeback feedback_learning notification_alerting identity_access : QueueName
  tenant_subscription ops_observability : QueueName

abbrev pub queue_text : QueueName → String
queue_text mailbox_ingestion = "mailbox-ingestion"
queue_text classification = "classification"
queue_text contact_graph = "contact-graph"
queue_text threat_detection = "threat-detection"
queue_text prioritization = "prioritization"
queue_text mailbox_writeback = "mailbox-writeback"
queue_text feedback_learning = "feedback-learning"
queue_text notification_alerting = "notification-alerting"
queue_text identity_access = "identity-access"
queue_text tenant_subscription = "tenant-subscription"
queue_text ops_observability = "ops-observability"

-- `EVENT_QUEUE_ROUTING`
abbrev pub event_queue_routing : List (String × List QueueName)
event_queue_routing =
    ("MessageIngestedEvent", classification ∷ threat_detection ∷ contact_graph ∷ [])
    ∷ ("MailboxSyncFailedEvent", ops_observability ∷ [])
    ∷ ("WatchSubscriptionExpiringEvent", ops_observability ∷ [])
    ∷ ("SenderClassifiedEvent", prioritization ∷ mailbox_writeback ∷ [])
    ∷ ("ContactPromotedToVipEvent", prioritization ∷ [])
    ∷ ("InteractionFrequencyUpdatedEvent", [])
    ∷ ("MailboxAuthorizedEvent", mailbox_ingestion ∷ [])
    ∷ ("MailboxCredentialRevokedEvent", mailbox_ingestion ∷ [])
    ∷ ("PlanEntitlementsChanged", [])
    ∷ ("SubscriptionBillingEventRecorded", [])
    ∷ ("TenantSuspended", identity_access ∷ [])
    ∷ ("UsageOverageDetected", [])
    ∷ ("MessageThreatAssessed", prioritization ∷ mailbox_writeback ∷ notification_alerting ∷ [])
    ∷ ("MessageQuarantined", mailbox_writeback ∷ notification_alerting ∷ [])
    ∷ ("QuarantineOverridden", feedback_learning ∷ [])
    ∷ ("MessagePrioritized", mailbox_writeback ∷ [])
    ∷ ("MessagePriorityEscalated", notification_alerting ∷ [])
    ∷ ("FacetAppliedToPlatform", [])
    ∷ ("WriteBackDivergenceDetected", feedback_learning ∷ [])
    ∷ ("WriteBackFailed", ops_observability ∷ [])
    ∷ ("ContactSignalReinforced", contact_graph ∷ [])
    ∷ ("FewShotExampleSetUpdated", classification ∷ [])
    ∷ ("SenderReputationUpdated", classification ∷ [])
    ∷ ("TaxonomyVersionBumpTriggered", classification ∷ [])
    ∷ ("UserCorrectionObserved", [])
    ∷ ("AlertDispatched", [])
    ∷ ("DigestGenerated", [])
    ∷ ("NotificationDeliveryFailed", ops_observability ∷ [])
    ∷ []

-- `EVENT_QUEUE_ROUTING[eventType]`, of a text that is no property of every object.
unfoldable pub targets_of : String → Option (List QueueName)
targets_of event_type = lookup event_type event_queue_routing
