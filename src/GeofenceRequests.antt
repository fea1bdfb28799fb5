-- ===== src/GeofenceRequests.antt =====
-- app/services/geofence_request_service.py: a proposed punch location, from the request to its
-- review.
pub mod Submit
pub mod Review
