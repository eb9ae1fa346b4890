-- ===== src/Availability/Handover.antt =====
-- A slot that changes hands: ReleaseSlot by the booking that holds it, then BookSlot by another.
