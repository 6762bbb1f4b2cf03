-- ===== src/Examples.antt =====
-- Tests of the models on concrete inputs, and the theorems at inputs that meet their hypotheses.
mod Etcd
mod Modelcheck
mod Fakeapi
mod Gc
mod Ctrl
mod Passes
mod Quiescence
mod Script
