-- ===== src/Sms/Accepted.antt =====
-- That an SMS request is answered when the parts that its endpoint calls answer: `_sms_post` and its
-- router of app/legacy/v2/notifications/rest.py.
use va_enp_api.Redis.Server.{Redis}
