-- ===== src/Protocol/Params.antt =====
-- The indices of `namespace param_index` that the library uses.
use robstride_driver.Common.{ℕ}

abbrev pub run_mode : ℕ
run_mode = 0x7005

abbrev pub iq_ref : ℕ
iq_ref = 0x7006

abbrev pub spd_ref : ℕ
spd_ref = 0x700A

abbrev pub loc_ref : ℕ
loc_ref = 0x7016

abbrev pub limit_spd : ℕ
limit_spd = 0x7017

abbrev pub limit_cur : ℕ
limit_cur = 0x7018

abbrev pub acc_rad : ℕ
acc_rad = 0x7022

abbrev pub vel_max : ℕ
vel_max = 0x7024

abbrev pub acc_set : ℕ
acc_set = 0x7025

abbrev pub limit_torque : ℕ
limit_torque = 0x700B

abbrev pub cur_kp : ℕ
cur_kp = 0x7010

abbrev pub cur_ki : ℕ
cur_ki = 0x7011

abbrev pub cur_filt_gain : ℕ
cur_filt_gain = 0x7014

abbrev pub mech_pos : ℕ
mech_pos = 0x7019

abbrev pub iq_filtered : ℕ
iq_filtered = 0x701A

abbrev pub mech_vel : ℕ
mech_vel = 0x701B

abbrev pub v_bus : ℕ
v_bus = 0x701C

abbrev pub loc_kp : ℕ
loc_kp = 0x701E

abbrev pub spd_kp : ℕ
spd_kp = 0x701F

abbrev pub spd_ki : ℕ
spd_ki = 0x7020

abbrev pub spd_filt_gain : ℕ
spd_filt_gain = 0x7021

abbrev pub can_timeout : ℕ
can_timeout = 0x7028
