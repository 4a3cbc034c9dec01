-- ===== src/Terry/Managers.antt =====
-- When a Terry task has no manager of a name: python/formats/terry_format/parsing.py.
