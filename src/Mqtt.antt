-- ===== src/Mqtt.antt =====
-- The encodings of src/mqtt_demo_server.c and src/mqtt_demo_client.c.
pub mod Codec
