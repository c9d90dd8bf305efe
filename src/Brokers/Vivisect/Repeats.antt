-- ===== src/Brokers/Vivisect/Repeats.antt =====
-- Which instructions `VivisectBroker::fetchRegion` gives.
