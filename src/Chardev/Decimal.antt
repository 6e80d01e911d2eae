-- ===== src/Chardev/Decimal.antt =====
-- module5/task4/chardev.c: the text that device_open writes with sprintf.
